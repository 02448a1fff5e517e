-- ===== src/Events/Update.antt =====
-- PATCH of src/routers/events.py: the validation of its body, of src/schemas/event.py, the merge into
-- the row and the commit. The handler is one step: no other request commits inside it.
use checkin_service.Base.{
  ℕ, Bool, Option, none, some, ◌==◌, update_where, if◌then◌else◌, Result, ok, err, raise_if, http,
  not, ◌>>=◌, ◌>>◌, empty_title, end_before_start, integrity_error,
}
use checkin_service.Text.{Text, is_empty}
use checkin_service.Text.Numerals.{ℤ, pos, negsuc}
use checkin_service.Models.{Db, DateTime, Float, Event, EventStatus, Visibility, CheckinMethod}
use checkin_service.Geo.Distance.{FloatOps}
use checkin_service.Hashing.{sanitize_text}
use checkin_service.Auth.Roles.{Actor}
use checkin_service.Events.{Moment, naive, stored, own_row}
use checkin_service.Events.Schema.{
  Field, absent, null, given, sized, within, ranged, patched, checkin_method_of, event_status_of,
  visibility_of, end_after_start,
}

pub record UpdateBody : Type 0 where
  pub title : Field Text
  pub description : Field Text
  pub location_name : Field Text
  pub latitude : Field Float
  pub longitude : Field Float
  pub geofence_radius_m : Field ℤ
  pub start_time : Field Moment
  pub end_time : Field Moment
  pub max_capacity : Field ℤ
  pub checkin_method : Field Text
  pub status : Field Text
  pub visibility : Field Text
  pub allow_nfc_checkin : Field Bool

pub record EventUpdate : Type 0 where
  pub title : Field Text
  pub description : Field Text
  pub location_name : Field Text
  pub latitude : Field Float
  pub longitude : Field Float
  pub geofence_radius_m : Field ℕ
  pub start_time : Field Moment
  pub end_time : Field Moment
  pub max_capacity : Field ℕ
  pub checkin_method : Field CheckinMethod
  pub status : Field EventStatus
  pub visibility : Field Visibility
  pub allow_nfc_checkin : Field Bool

-- `EventUpdate.model_validate(body)`, under the cap on the radius
unfoldable pub validate_update : FloatOps → ℕ → UpdateBody → Result EventUpdate
validate_update fl cap b = do
  title ← patched (sized 1 200) b.title
  description ← patched (sized 0 5000) b.description
  location_name ← patched (sized 0 200) b.location_name
  latitude ← patched (within fl (negsuc 89) (pos 90)) b.latitude
  longitude ← patched (within fl (negsuc 179) (pos 180)) b.longitude
  radius ← patched (ranged 10 cap) b.geofence_radius_m
  max_capacity ← patched (ranged 1 100_000) b.max_capacity
  checkin_method ← patched checkin_method_of b.checkin_method
  status ← patched event_status_of b.status
  visibility ← patched visibility_of b.visibility
  ok (record {
    title = title;
    description = description;
    location_name = location_name;
    latitude = latitude;
    longitude = longitude;
    geofence_radius_m = radius;
    start_time = b.start_time;
    end_time = b.end_time;
    max_capacity = max_capacity;
    checkin_method = checkin_method;
    status = status;
    visibility = visibility;
    allow_nfc_checkin = b.allow_nfc_checkin;
  })

-- a nullable column after `setattr`
abbrev pub merged : {A : Type 0} → Option A → Field A → Option A
merged old absent = old
merged old null = none
merged old (given a) = some a

-- `update_data.get(key, getattr(event, key))` of a time: what comes from the column has no offset
unfoldable pub merged_time : Option DateTime → Field Moment → Option Moment
merged_time none absent = none
merged_time (some t) absent = some (naive t)
merged_time old null = none
merged_time old (given m) = some m

-- a column that is NOT NULL: `none` is the `IntegrityError` of a null
abbrev pub merged_value : {A : Type 0} → A → Field A → Option A
merged_value old absent = some old
merged_value old null = none
merged_value old (given a) = some a

-- `sanitize_text(value, max_len=n)` of what was supplied
abbrev pub sanitized : ℕ → Option Text → Field Text → Option Text
sanitized n old absent = old
sanitized n old null = sanitize_text none n
sanitized n old (given s) = sanitize_text (some s) n

-- `if not sanitized: raise`
unfoldable pub title_of : Text → Field Text → Result Text
title_of old absent = ok old
title_of old null = err (http 422 empty_title)
title_of old (given s) = elim (sanitize_text (some s) 200) [
  | none ↦ err (http 422 empty_title)
  | some title ↦ if is_empty title then err (http 422 empty_title) else ok title
]

-- what the database takes of a column
unfoldable pub not_null : {A : Type 0} → Option A → Result A
not_null none = err (http 500 integrity_error)
not_null (some a) = ok a

-- The row with the columns of the patch.
unfoldable pub merge : EventUpdate → Event → Result Event
unfolding title_of not_null merged_time
merge p e = do
  title ← title_of e.title p.title
  ordered ←
      end_after_start (merged_time e.start_time p.start_time) (merged_time e.end_time p.end_time)
  raise_if (not ordered) (http 422 end_before_start)
  checkin_method ← not_null (merged_value e.checkin_method p.checkin_method)
  status ← not_null (merged_value e.status p.status)
  visibility ← not_null (merged_value e.visibility p.visibility)
  allow_nfc ← not_null (merged_value e.allow_nfc_checkin p.allow_nfc_checkin)
  ok (record e {
    title = title;
    description_sn = sanitized 5000 e.description_sn p.description;
    location_name = sanitized 200 e.location_name p.location_name;
    latitude = merged e.latitude p.latitude;
    longitude = merged e.longitude p.longitude;
    geofence_radius_m = merged e.geofence_radius_m p.geofence_radius_m;
    start_time = stored (merged_time e.start_time p.start_time);
    end_time = stored (merged_time e.end_time p.end_time);
    max_capacity = merged e.max_capacity p.max_capacity;
    checkin_method = checkin_method;
    status = status;
    visibility = visibility;
    allow_nfc_checkin = allow_nfc;
  })

-- `db.commit()`: the assigned columns are written. `is_clean` is the session's comparison of the loaded
-- columns with the assigned ones: where none differs there is no UPDATE, and no new `updated_at`.
unfoldable pub flush_row : (Event → Event → Bool) → DateTime → Event → Event → Event
flush_row is_clean now new old = if is_clean old new then old else record old {
  title = new.title;
  description_sn = new.description_sn;
  location_name = new.location_name;
  latitude = new.latitude;
  longitude = new.longitude;
  geofence_radius_m = new.geofence_radius_m;
  start_time = new.start_time;
  end_time = new.end_time;
  max_capacity = new.max_capacity;
  checkin_method = new.checkin_method;
  status = new.status;
  visibility = new.visibility;
  allow_nfc_checkin = new.allow_nfc_checkin;
  updated_at = now;
}

unfoldable pub update_event :
    (Event → Event → Bool) → Actor → ℕ → EventUpdate → DateTime → Db → Result Event × Db
update_event is_clean actor event_id p now db = elim (own_row actor event_id db) [
  | err e ↦ (err e, db)
  | ok event ↦ elim (merge p event) [
    | err e ↦ (err e, db)
    | ok new ↦ (
      ok (flush_row is_clean now new event),
      record db {
        events =
            update_where (λ (x : Event). x.id == event.id) (flush_row is_clean now new) db.events;
      },
    )
  ]
]
