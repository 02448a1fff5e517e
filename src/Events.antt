-- ===== src/Events.antt =====
-- src/routers/events.py: creating, reading and cancelling an event. The lists are in Events/Lists, the
-- PATCH in Events/Update.
pub mod Lists
pub mod Schema
pub mod Update
pub mod Cases
pub mod Limits
pub mod Created
pub mod Reads
pub mod Pages
pub mod Closed
pub mod Merged
pub mod Patched
use checkin_service.Base.{
  ℕ, ◌+◌, Bool, true, false, ◌&&◌, ◌||◌, Option, none, some, List, [], ◌∷◌, ◌==◌, first, select,
  update_where, count_where, if◌then◌else◌, not, Result, ok, err, ◌>>=◌, ◌>>◌, http,
  event_not_found, school_id_required, group_required, empty_title, integrity_error,
}
use checkin_service.Text.{Text, txt, text_eq, is_empty, is_falsy, or_else}
use checkin_service.Models.{
  Db, DateTime, Float, Event, EventType, EventStatus, Visibility, GroupKind, CheckinMethod,
  event_conflict, column_eq, rush, coach_clinic, brand_activation, agency_mixer, generic, draft,
  published, active, completed,
}
use checkin_service.Models.Store.{add_row}
use checkin_service.Hashing.{sanitize_text}
use checkin_service.Auth.Roles.{Actor, actor_role, is_bypass}
use checkin_service.Auth.Gates.{
  require_admin, require_event_creator, resolve_event_tenant, assert_school_only_eligible,
  assert_group_event_eligible, assert_event_owner_or_admin,
}
use checkin_service.Registrations.Gate.{validate_idem_key, is_open}

-- A `datetime` of a body: `aware wall utc` came with an offset, shows the time `wall` and is the instant
-- `utc`.
pub data Moment : Type 0 where
  naive : DateTime → Moment
  aware : DateTime → DateTime → Moment

-- What a DATETIME column takes of it: the time that it shows, without its offset.
unfoldable pub stored : Option Moment → Option DateTime
stored none = none
stored (some (naive wall)) = some wall
stored (some (aware wall utc)) = some wall

-- the body of POST /events, past the validators of its schema
pub record EventCreate : Type 0 where
  pub event_type : EventType
  pub title : Text
  pub description : Option Text
  pub location_name : Option Text
  pub latitude : Option Float
  pub longitude : Option Float
  pub geofence_radius_m : Option ℕ
  pub start_time : Option Moment
  pub end_time : Option Moment
  pub max_capacity : Option ℕ
  pub checkin_method : CheckinMethod
  pub status : EventStatus
  pub visibility : Visibility
  pub allow_nfc_checkin : Bool
  pub group_id : Option ℕ
  pub group_kind : Option GroupKind

unfoldable pub is_group_only : Visibility → Bool
is_group_only v = elim v [ Visibility.group_only ↦ true | _ ↦ false ]

unfoldable pub is_school_only : Visibility → Bool
is_school_only v = elim v [ Visibility.school_only ↦ true | _ ↦ false ]

unfoldable pub is_public : Visibility → Bool
is_public v = elim v [ Visibility.public ↦ true | _ ↦ false ]

-- The tenant of a `group_only` event is the one of its group.
unfoldable pub group_tenant : Actor → EventCreate → Db → Result Text
group_tenant actor p db = elim p.group_id [
  | none ↦ err (http 422 group_required)
  | some gid ↦ elim p.group_kind [
    | none ↦ err (http 422 group_required)
    | some kind ↦ assert_group_event_eligible actor kind gid db
  ]
]

-- The tenant and the key, once the caller may create the event.
unfoldable pub create_gate : Actor → EventCreate → Option Text → Db → Result (Text × Option Text)
unfolding group_tenant is_group_only is_school_only
create_gate actor p key db = do
  creator ← require_event_creator actor
  school_id ← resolve_event_tenant actor
  safe_idem ← validate_idem_key key
  if is_school_only p.visibility then assert_school_only_eligible actor else ok tt
  tenant ← if is_group_only p.visibility then group_tenant actor p db else ok school_id
  ok (tenant, safe_idem)

unfoldable pub by_idem : Text → Text → Event → Bool
by_idem tenant key e = text_eq e.school_id tenant && column_eq e.idempotency_key key

-- `if safe_idem:` the row of the same tenant and key
unfoldable pub replayed_event : Text → Option Text → Db → Option Event
unfolding by_idem
replayed_event tenant none db = none
replayed_event tenant (some key) db =
    if is_empty key then none else first (by_idem tenant key) db.events

-- The column's default fills in for a radius that is null.
abbrev pub new_event : Actor → EventCreate → Text → Option Text → Text → DateTime → Db → Event
new_event actor p tenant key title now db = record {
  id = db.next_id;
  school_id = tenant;
  owner_user_id = or_else actor.user_id (txt "service");
  event_type = p.event_type;
  title = title;
  description_sn = sanitize_text p.description 5000;
  location_name = sanitize_text p.location_name 200;
  latitude = p.latitude;
  longitude = p.longitude;
  geofence_radius_m = elim p.geofence_radius_m [ none ↦ some 100 | some r ↦ some r ];
  start_time = stored p.start_time;
  end_time = stored p.end_time;
  max_capacity = p.max_capacity;
  checkin_method = p.checkin_method;
  status = p.status;
  visibility = p.visibility;
  allow_nfc_checkin = p.allow_nfc_checkin;
  organizer_role = some (actor_role actor);
  group_id = if is_group_only p.visibility then p.group_id else none;
  group_kind = if is_group_only p.visibility then p.group_kind else none;
  idempotency_key = key;
  created_at = now;
  updated_at = now;
}

-- The insert. A row that collides is rolled back, and the row of the key is returned.
unfoldable pub insert_event :
    Actor → EventCreate → Text → Option Text → Text → DateTime → Db → Result Event × Db
insert_event actor p tenant key title now db =
    let e = new_event actor p tenant key title now db in
    elim (add_row event_conflict e db.events) [
      | some rows ↦ (ok e, record db { events = rows; next_id = db.next_id + 1 })
      | none ↦ elim (replayed_event tenant key db) [
        | some existing ↦ (ok existing, db)
        | none ↦ (err (http 500 integrity_error), db)
      ]
    ]

-- `race` is what other requests commit between the query for the key and the insert.
unfoldable pub create_event :
    (Db → Db) → Actor → EventCreate → Option Text → DateTime → Db → Result Event × Db
unfolding insert_event
create_event race actor p key now db = elim (create_gate actor p key db) [
  | err e ↦ (err e, db)
  | ok gate ↦ elim (replayed_event gate.0 gate.1 db) [
    | some existing ↦ (ok existing, db)
    | none ↦ elim (sanitize_text (some p.title) 200) [
      | none ↦ (err (http 422 empty_title), db)
      | some title ↦
          if is_empty title
          then (err (http 422 empty_title), db)
          else insert_event actor p gate.0 gate.1 title now (race db)
    ]
  ]
]

unfoldable pub resolve_school_id : Actor → Result Text
resolve_school_id actor =
    if is_falsy actor.school_id
    then err (http 403 school_id_required)
    else ok (or_else actor.school_id [])

unfoldable pub of_tenant : ℕ → Text → Event → Bool
of_tenant event_id tenant e = e.id == event_id && text_eq e.school_id tenant

-- the row, or 404, in the tenant of the caller
unfoldable pub event_of : ℕ → Text → Db → Result Event
unfolding of_tenant
event_of event_id tenant db = elim (first (of_tenant event_id tenant) db.events) [
  | none ↦ err (http 404 event_not_found)
  | some e ↦ ok e
]

unfoldable pub get_event : Actor → ℕ → Db → Result Event
get_event actor event_id db = do
  admin ← require_admin actor
  school_id ← resolve_school_id actor
  event_of event_id school_id db

-- A bypass role is anchored on its school, where it has one.
unfoldable pub write_tenant : Actor → Result Text
write_tenant actor = do
  tenant ← resolve_event_tenant actor
  ok (if is_bypass actor then or_else actor.school_id tenant else tenant)

unfoldable pub own_row : Actor → ℕ → Db → Result Event
own_row actor event_id db = do
  tenant ← write_tenant actor
  event ← event_of event_id tenant db
  assert_event_owner_or_admin actor event.owner_user_id event.school_id
  ok event

unfoldable pub is_event_cancelled : EventStatus → Bool
is_event_cancelled s = elim s [ EventStatus.cancelled ↦ true | _ ↦ false ]

-- The assignment of the same status is no UPDATE.
unfoldable pub set_event_cancelled : DateTime → Event → Event
set_event_cancelled now e =
    if is_event_cancelled e.status
    then e
    else record e { status = EventStatus.cancelled; updated_at = now }

unfoldable pub delete_event : Actor → ℕ → DateTime → Db → Result ℕ × Db
delete_event actor event_id now db = elim (own_row actor event_id db) [
  | err e ↦ (err e, db)
  | ok event ↦ (
    ok event_id,
    record db {
      events = update_where (λ (x : Event). x.id == event.id) (set_event_cancelled now) db.events;
    },
  )
]
