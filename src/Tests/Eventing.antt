-- ===== src/Tests/Eventing.antt =====
-- Creating, listing, changing and cancelling an event.
use checkin_service.Base.{
  refl, ◌≢◌, ◌≤◌, ok, first, ◌≡◌, none, some, All, length, false, List, [], ◌∷◌, map, select,
  count_where, arith,
}
use checkin_service.Base.Sorting.{page, sort_by, insert_by, take_rows, drop_rows}
use checkin_service.Text.{txt, text_eq, member, lower, strip, is_space, lower_char, lstrip, rstrip}
use checkin_service.Text.Numerals.{pos, parse_int, parse_signed, parse_digits}
use checkin_service.Env.{Environment, getenv}
use checkin_service.Auth.Roles.{is_bypass, actor_role}
use checkin_service.Auth.Gates.{
  assert_event_owner_or_admin, is_user, is_in_school, resolve_event_tenant, require_admin,
}
use checkin_service.Registrations.Gate.{register_gate, is_open}
use checkin_service.Models.{Db, Event, generic, qr, EventStatus, Visibility}
use checkin_service.Events.{
  EventCreate, aware, naive, create_event, delete_event, own_row, write_tenant, event_of, of_tenant,
  is_public, resolve_school_id,
}
use checkin_service.Events.Lists.{
  list_events, discover_events, discover_response, Discovery, query_bounds, is_listed, is_asked_for,
  soonest_first, newest_first, column_is, event_type_text, event_status_text,
}
use checkin_service.Events.Schema
use checkin_service.Events.Schema.{
  absent, null, given, CreateBody, validate_create, geofence_max_radius,
}
use checkin_service.Events.Update.{EventUpdate}
use checkin_service.Events.Closed.{delete_event-closed}
use checkin_service.Events.Created.{IsCreation, create_event-IsCreation}
use checkin_service.Events.Reads.{IsShown, discover_events-AreVisible}
use checkin_service.Events.Pages.{IsOwn, AreInOrder, list_events_tile}
use checkin_service.Events.Limits.{IsLimited, validate_create-IsLimited}
use checkin_service.Tests.Data.{ben, student, admin, full, party, floats}
use checkin_service.Tests.Registering.{full-IsSound}

abbrev meeting : EventCreate
meeting = record {
  event_type = generic;
  title = txt "Meeting";
  description = none;
  location_name = none;
  latitude = none;
  longitude = none;
  geofence_radius_m = some 100;
  start_time = none;
  end_time = none;
  max_capacity = none;
  checkin_method = qr;
  status = EventStatus.published;
  visibility = Visibility.school_only;
  allow_nfc_checkin = false;
  group_id = none;
  group_kind = none;
}

create_event-IsCreation_example :
    IsCreation admin meeting
      (some (txt "meeting-1"))
      full
      (create_event (λ d. d) admin meeting (some (txt "meeting-1")) 70 full)
create_event-IsCreation_example =
    create_event-IsCreation (λ d. d) admin meeting (some (txt "meeting-1")) 70 full (λ d h. h)
      full-IsSound

abbrev fair : Event
fair = record party {
  id = 2;
  title = txt "Fair";
  visibility = Visibility.public;
  start_time = some 100;
  end_time = some 200;
}

abbrev fair_row : Event
fair_row = record fair { id = 3; start_time = some 300; end_time = some 400 }

abbrev season : Db
season = record full { events = fair ∷ fair_row ∷ []; next_id = 4 }

abbrev feed : Discovery
feed = record { events = discover_response fair_row ∷ []; total = 2; limit = 1; offset = 1 }

feeding : discover_events (student ben) none 1 1 season ≡ ok feed
unfolding discover_events query_bounds select is_listed is_public is_open page sort_by insert_by
    soonest_first count_where take_rows drop_rows column_is event_type_text
feeding = refl

discover_events-AreVisible_example :
    (rows : List Event) × (feed.events ≡ map discover_response rows)
    × All (IsShown (student ben) season) rows
    × (length rows ≤ 1)
    × (2 ≡ length (select (is_listed (student ben) none) season.events))
discover_events-AreVisible_example =
    discover_events-AreVisible (student ben) none 1 1 season feed feeding

first_page : list_events admin none none 1 0 season ≡ ok (fair_row ∷ [])
unfolding list_events query_bounds select is_asked_for page sort_by insert_by newest_first take_rows
    drop_rows column_is event_type_text event_status_text require_admin resolve_school_id is_bypass
    actor_role member text_eq lower lower_char strip lstrip rstrip is_space
first_page = refl

second_page : list_events admin none none 1 1 season ≡ ok (fair ∷ [])
unfolding list_events query_bounds select is_asked_for page sort_by insert_by newest_first take_rows
    drop_rows column_is event_type_text event_status_text require_admin resolve_school_id is_bypass
    actor_role member text_eq lower lower_char strip lstrip rstrip is_space
second_page = refl

list_events_tile_example :
    (list_events admin none none 2 0 season ≡ ok (fair_row ∷ fair ∷ []))
    × All (IsOwn admin season) (fair_row ∷ fair ∷ [])
    × AreInOrder (fair_row ∷ fair ∷ [])
list_events_tile_example =
    list_events_tile admin none none 1 1 0 season (fair_row ∷ []) (fair ∷ []) first_page second_page
      (omega arith)

abbrev fair_body : CreateBody
fair_body = record {
  event_type = absent;
  title = given (txt "Fair");
  description = absent;
  location_name = null;
  latitude = given 1040;
  longitude = given 1010;
  geofence_radius_m = given (pos 50);
  start_time = given (aware 120 100);
  end_time = given (aware 110 200);
  max_capacity = given (pos 20);
  checkin_method = given (txt "qr");
  status = absent;
  visibility = absent;
  allow_nfc_checkin = absent;
  group_id = absent;
  group_kind = absent;
}

abbrev fair_create : EventCreate
fair_create = record {
  event_type = generic;
  title = txt "Fair";
  description = none;
  location_name = none;
  latitude = some 1040;
  longitude = some 1010;
  geofence_radius_m = some 50;
  start_time = some (aware 120 100);
  end_time = some (aware 110 200);
  max_capacity = some 20;
  checkin_method = qr;
  status = EventStatus.draft;
  visibility = Visibility.public;
  allow_nfc_checkin = false;
  group_id = none;
  group_kind = none;
}

abbrev unset : Environment
unset key = none

validating : validate_create floats (geofence_max_radius unset) fair_body ≡ ok fair_create
unfolding validate_create geofence_max_radius parse_int parse_signed parse_digits getenv
    Schema.defaulted Schema.mandatory Schema.optional Schema.read_value Schema.sized Schema.within
    Schema.ranged Schema.checkin_method_of Schema.end_after_start Schema.is_after
    Schema.lon_requires_lat text_eq strip lstrip rstrip is_space
validating = refl

validate_create-IsLimited_example : IsLimited floats fair_create
validate_create-IsLimited_example =
    validate_create-IsLimited floats unset fair_body fair_create validating

closing : (delete_event admin 1 80 full).0 ≡ ok 1
unfolding delete_event own_row write_tenant event_of of_tenant resolve_event_tenant first member
    text_eq assert_event_owner_or_admin is_user is_in_school is_bypass actor_role lower lower_char
    strip lstrip rstrip is_space
closing = refl

delete_event-closed_example :
    ((deleted : Event) × (own_row admin 1 full ≡ ok deleted)
      × (assert_event_owner_or_admin admin deleted.owner_user_id deleted.school_id ≡ ok tt))
    × (register_gate (delete_event admin 1 80 full).1 (student ben) 1 none none ≢ ok (party, ben))
delete_event-closed_example =
    delete_event-closed admin (student ben) 1 1 80 full none none party ben closing

abbrev longer : EventUpdate
longer = record {
  title = absent;
  description = null;
  location_name = absent;
  latitude = absent;
  longitude = absent;
  geofence_radius_m = given 500;
  start_time = absent;
  end_time = given (naive 250);
  max_capacity = null;
  checkin_method = absent;
  status = absent;
  visibility = absent;
  allow_nfc_checkin = absent;
}
