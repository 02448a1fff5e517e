-- ===== src/Events/Lists.antt =====
-- The two lists of src/routers/events.py, with their order, their pages and the filters.
use checkin_service.Base.{
  ℕ, Bool, true, false, ◌&&◌, ◌||◌, Option, none, some, List, [], map, ◌==◌, leb, ltb, select,
  count_where, if◌then◌else◌, Result, ok, raise_if, http, not, ◌>>=◌, ◌>>◌, validation_error,
}
use checkin_service.Base.Sorting.{sort_by, page}
use checkin_service.Text.{Text, txt, text_eq, is_falsy, or_else}
use checkin_service.Models.{
  Db, DateTime, Event, EventType, EventStatus, Visibility, rush, coach_clinic, brand_activation,
  agency_mixer, generic, draft, published, active, completed,
}
use checkin_service.Auth.Roles.{Actor}
use checkin_service.Auth.Gates.{require_admin}
use checkin_service.Registrations.Gate.{is_open}
use checkin_service.Events.{is_public, is_school_only, resolve_school_id}

-- The texts of the enumerations, as the columns hold them.
unfoldable pub event_type_text : EventType → Text
event_type_text rush = txt "rush"
event_type_text coach_clinic = txt "coach_clinic"
event_type_text brand_activation = txt "brand_activation"
event_type_text agency_mixer = txt "agency_mixer"
event_type_text generic = txt "generic"

unfoldable pub event_status_text : EventStatus → Text
event_status_text draft = txt "draft"
event_status_text published = txt "published"
event_status_text active = txt "active"
event_status_text completed = txt "completed"
event_status_text EventStatus.cancelled = txt "cancelled"

-- `if t: query.filter(column == t)`
unfoldable pub column_is : Option Text → Text → Bool
column_is t column = if is_falsy t then true else text_eq column (or_else t [])

-- `Query(default=50, ge=1, le=200)`; an offset is not negative by its type.
unfoldable pub query_bounds : ℕ → Result (Unit {0})
query_bounds limit = raise_if (not (leb 1 limit && leb limit 200)) (http 422 validation_error)

-- `start_time.desc().nullslast(), id.desc()`
unfoldable pub newest_first : Event → Event → Bool
newest_first a b = elim a.start_time [
  | none ↦ elim b.start_time [ none ↦ leb b.id a.id | some t ↦ false ]
  | some s ↦ elim b.start_time [ none ↦ true | some t ↦ if s == t then leb b.id a.id else ltb t s ]
]

-- `start_time.asc().nullslast(), id.desc()`
unfoldable pub soonest_first : Event → Event → Bool
soonest_first a b = elim a.start_time [
  | none ↦ elim b.start_time [ none ↦ leb b.id a.id | some t ↦ false ]
  | some s ↦ elim b.start_time [ none ↦ true | some t ↦ if s == t then leb b.id a.id else ltb s t ]
]

-- the filters of GET /events
unfoldable pub is_asked_for : Text → Option Text → Option Text → Event → Bool
unfolding column_is event_type_text event_status_text
is_asked_for school_id event_type status_filter e =
    text_eq e.school_id school_id
    && column_is event_type (event_type_text e.event_type)
    && column_is status_filter (event_status_text e.status)

unfoldable pub list_events : Actor → Option Text → Option Text → ℕ → ℕ → Db → Result (List Event)
list_events actor event_type status_filter limit offset db = do
  admin ← require_admin actor
  query_bounds limit
  school_id ← resolve_school_id actor
  ok (
      page offset limit
        (sort_by newest_first (select (is_asked_for school_id event_type status_filter) db.events)))

-- the filter of GET /events/discover
unfoldable pub is_listed : Actor → Option Text → Event → Bool
unfolding is_public is_school_only column_is event_type_text
is_listed actor event_type e =
    is_open e.status
    && (if is_falsy actor.school_id
        then is_public e.visibility
        else (is_public e.visibility
            || (is_school_only e.visibility && text_eq e.school_id (or_else actor.school_id []))))
    && column_is event_type (event_type_text e.event_type)

pub record EventDiscoverResponse : Type 0 where
  pub id : ℕ
  pub event_type : EventType
  pub title : Text
  pub description_sn : Option Text
  pub location_name : Option Text
  pub start_time : Option DateTime
  pub end_time : Option DateTime
  pub max_capacity : Option ℕ
  pub visibility : Visibility
  pub status : EventStatus

-- `EventDiscoverResponse.model_validate(r).model_dump()`
abbrev pub discover_response : Event → EventDiscoverResponse
discover_response e = record {
  id = e.id;
  event_type = e.event_type;
  title = e.title;
  description_sn = e.description_sn;
  location_name = e.location_name;
  start_time = e.start_time;
  end_time = e.end_time;
  max_capacity = e.max_capacity;
  visibility = e.visibility;
  status = e.status;
}

pub record Discovery : Type 0 where
  pub events : List EventDiscoverResponse
  pub total : ℕ
  pub limit : ℕ
  pub offset : ℕ

unfoldable pub discover_events : Actor → Option Text → ℕ → ℕ → Db → Result Discovery
discover_events actor event_type limit offset db = do
  query_bounds limit
  ok (record {
    events =
        map discover_response (
          page offset limit
            (sort_by soonest_first (select (is_listed actor event_type) db.events)));
    total = count_where (is_listed actor event_type) db.events;
    limit = limit;
    offset = offset;
  })
