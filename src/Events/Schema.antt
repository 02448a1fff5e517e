-- ===== src/Events/Schema.antt =====
-- The bodies of POST and PATCH of src/routers/events.py and their validators, of
-- src/schemas/event.py. A body is taken after JSON's own types: a field holds a value of its type.
use checkin_service.Base.{
  ℕ, Bool, true, false, not, ◌&&◌, Option, none, some, leb, length, if◌then◌else◌, Result, ok, err,
  require, http, validation_error, type_error, ◌>>=◌, ◌>>◌,
}
use checkin_service.Text.{Text, txt, text_eq, strip}
use checkin_service.Text.Numerals.{ℤ, pos, negsuc, parse_int}
use checkin_service.Env.{Environment, getenv}
use checkin_service.Models.{
  Float, EventType, EventStatus, Visibility, GroupKind, CheckinMethod, rush, coach_clinic,
  brand_activation, agency_mixer, generic, draft, published, completed, manual, qr, geo, qr_geo,
  no_checkin, school_only, unlisted, invite_only, group_only, school_admin_group, team_lead_cohort,
}
use checkin_service.Geo.Distance.{FloatOps}
use checkin_service.Events.{EventCreate, Moment, naive, aware}

-- A field of a JSON object: left out, `null`, or a value.
pub data Field (A : Type 0) : Type 0 where
  absent null : Field A
  given : A → Field A

abbrev pub supplied : {A : Type 0} → Field A → Option A
supplied absent = none
supplied null = none
supplied (given a) = some a

-- `GEOFENCE_MAX_RADIUS_METERS`
unfoldable pub geofence_max_radius : Environment → ℕ
geofence_max_radius env =
    elim (parse_int (strip (getenv env (txt "GEOFENCE_MAX_RADIUS_METERS") (txt "500")))) [
      | none ↦ 500
      | some value ↦ elim value [
        | pos n ↦ if leb 10 n && leb n 5000 then n else 500
        | negsuc n ↦ 500
      ]
    ]

unfoldable pub event_type_of : Text → Option EventType
event_type_of s =
    if text_eq s (txt "rush")
    then some rush
    else if text_eq s (txt "coach_clinic")
    then some coach_clinic
    else if text_eq s (txt "brand_activation")
    then some brand_activation
    else if text_eq s (txt "agency_mixer")
    then some agency_mixer
    else if text_eq s (txt "generic")
    then some generic
    else none

unfoldable pub event_status_of : Text → Option EventStatus
event_status_of s =
    if text_eq s (txt "draft")
    then some draft
    else if text_eq s (txt "published")
    then some published
    else if text_eq s (txt "active")
    then some EventStatus.active
    else if text_eq s (txt "completed")
    then some completed
    else if text_eq s (txt "cancelled")
    then some EventStatus.cancelled
    else none

unfoldable pub checkin_method_of : Text → Option CheckinMethod
checkin_method_of s =
    if text_eq s (txt "manual")
    then some manual
    else if text_eq s (txt "qr")
    then some qr
    else if text_eq s (txt "geo")
    then some geo
    else if text_eq s (txt "qr_geo")
    then some qr_geo
    else if text_eq s (txt "none")
    then some no_checkin
    else none

unfoldable pub visibility_of : Text → Option Visibility
visibility_of s =
    if text_eq s (txt "public")
    then some Visibility.public
    else if text_eq s (txt "school_only")
    then some school_only
    else if text_eq s (txt "unlisted")
    then some unlisted
    else if text_eq s (txt "invite_only")
    then some invite_only
    else if text_eq s (txt "group_only")
    then some group_only
    else none

unfoldable pub group_kind_of : Text → Option GroupKind
group_kind_of s =
    if text_eq s (txt "school_admin_group")
    then some school_admin_group
    else if text_eq s (txt "team_lead_cohort")
    then some team_lead_cohort
    else none

-- A text of `lo` to `hi` code points.
unfoldable pub sized : ℕ → ℕ → Text → Option Text
sized lo hi s = if leb lo (length s) && leb (length s) hi then some s else none

-- `Field(ge=lo, le=hi)` of an integer
unfoldable pub ranged : ℕ → ℕ → ℤ → Option ℕ
ranged lo hi (pos n) = if leb lo n && leb n hi then some n else none
ranged lo hi (negsuc n) = none

-- `Field(ge=lo, le=hi)` of a float, at whole bounds
unfoldable pub within : FloatOps → ℤ → ℤ → Float → Option Float
within fl lo hi v = if fl.le (fl.of_int lo) v && fl.le v (fl.of_int hi) then some v else none

module _ {A B : Type 0} (read : A → Option B) where
  unfoldable pub read_value : A → Result B
  read_value a = elim (read a) [ none ↦ err (http 422 validation_error) | some b ↦ ok b ]

  -- a field without a default
  unfoldable pub mandatory : Field A → Result B
  unfolding read_value
  mandatory absent = err (http 422 validation_error)
  mandatory null = err (http 422 validation_error)
  mandatory (given a) = read_value a

  -- `Optional[...] = default`
  unfoldable pub optional : Option B → Field A → Result (Option B)
  unfolding read_value
  optional default absent = ok default
  optional default null = ok none
  optional default (given a) = read_value a >>= λ b. ok (some b)

  -- a default that is not `None`, of a type that is not optional
  unfoldable pub defaulted : B → Field A → Result B
  unfolding read_value
  defaulted default absent = ok default
  defaulted default null = err (http 422 validation_error)
  defaulted default (given a) = read_value a

  -- a field of a patch, which keeps what was left out and what was `null`
  unfoldable pub patched : Field A → Result (Field B)
  unfolding read_value
  patched absent = ok absent
  patched null = ok null
  patched (given a) = read_value a >>= λ b. ok (given b)

pub record CreateBody : Type 0 where
  pub event_type : Field Text
  pub title : Field Text
  pub description : Field Text
  pub location_name : Field Text
  pub latitude : Field Float
  pub longitude : Field Float
  pub geofence_radius_m : Field ℤ
  pub start_time : Field Moment
  pub end_time : Field Moment
  pub max_capacity : Field ℤ
  pub checkin_method : Field Text
  pub status : Field Text
  pub visibility : Field Text
  pub allow_nfc_checkin : Field Bool
  pub group_id : Field ℕ
  pub group_kind : Field Text

-- `not v <= start`, which raises `TypeError` where one has an offset and the other has none
unfoldable pub is_after : Moment → Moment → Result Bool
is_after (naive start) (naive v) = ok (not (leb v start))
is_after (naive start) (aware wall v) = err (http 500 type_error)
is_after (aware wall start) (naive v) = err (http 500 type_error)
is_after (aware wall start) (aware wall' v) = ok (not (leb v start))

-- `end_after_start`
unfoldable pub end_after_start : Option Moment → Option Moment → Result Bool
unfolding is_after
end_after_start none v = ok true
end_after_start (some start) none = ok true
end_after_start (some start) (some v) = is_after start v

-- `lon_requires_lat`, which runs only where the longitude is not left out
unfoldable pub lon_requires_lat : Option Float → Field Float → Bool
lon_requires_lat lat absent = true
lon_requires_lat none null = true
lon_requires_lat (some lat) null = false
lon_requires_lat none (given v) = false
lon_requires_lat (some lat) (given v) = true

-- `EventCreate.model_validate(body)`, under the cap on the radius. The validators of all fields run and
-- their errors are collected, but a `TypeError` ends the request whatever the other fields hold.
unfoldable pub validate_create : FloatOps → ℕ → CreateBody → Result EventCreate
validate_create fl cap b = do
  ordered ← end_after_start (supplied b.start_time) (supplied b.end_time)
  event_type ← defaulted event_type_of generic b.event_type
  title ← mandatory (sized 1 200) b.title
  description ← optional (sized 0 5000) none b.description
  location_name ← optional (sized 0 200) none b.location_name
  latitude ← optional (within fl (negsuc 89) (pos 90)) none b.latitude
  longitude ← optional (within fl (negsuc 179) (pos 180)) none b.longitude
  radius ← optional (ranged 10 cap) (some 100) b.geofence_radius_m
  max_capacity ← optional (ranged 1 100_000) none b.max_capacity
  checkin_method ← defaulted checkin_method_of no_checkin b.checkin_method
  status ← defaulted event_status_of draft b.status
  visibility ← defaulted visibility_of Visibility.public b.visibility
  allow_nfc ← defaulted (λ v. some v) false b.allow_nfc_checkin
  group_kind ← optional group_kind_of none b.group_kind
  require ordered (http 422 validation_error)
  require (lon_requires_lat latitude b.longitude) (http 422 validation_error)
  ok (record {
    event_type = event_type;
    title = title;
    description = description;
    location_name = location_name;
    latitude = latitude;
    longitude = longitude;
    geofence_radius_m = radius;
    start_time = supplied b.start_time;
    end_time = supplied b.end_time;
    max_capacity = max_capacity;
    checkin_method = checkin_method;
    status = status;
    visibility = visibility;
    allow_nfc_checkin = allow_nfc;
    group_id = supplied b.group_id;
    group_kind = group_kind;
  })
