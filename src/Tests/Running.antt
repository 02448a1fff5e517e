-- ===== src/Tests/Running.antt =====
-- A run of the service from empty tables: an event is created, and while Ben registers for it its
-- author renames it; then the event is cancelled and the retention job runs.
use checkin_service.Base.{◌≡◌, refl, none, some, false, [], ◌∷◌, http, event_not_found, first}
use checkin_service.Text.{txt, member}
use checkin_service.Text.Numerals.{pos}
use checkin_service.Env.{Environment}
use checkin_service.Events.{naive}
use checkin_service.Events.Schema.{CreateBody, absent, null, given}
use checkin_service.Events.Update.{UpdateBody}
use checkin_service.System.{Run, finished, creates, updates, deletes, registers, purges, run}
use checkin_service.System.Lives.{IsGrown}
use checkin_service.System.Refined.{run-IsGrown}
use checkin_service.System.Errors.{Write, invite, outcome, serve, serve_error}
use checkin_service.Auth.Roles.{Actor}
use checkin_service.Invitations.{send_invitations, owner_gate, resolve_event_for_owner}
use checkin_service.Tests.Data.{crypto, keys, floats, knobs, ben, student, admin, full}

abbrev unset : Environment
unset key = none

abbrev market : CreateBody
market = record {
  event_type = absent;
  title = given (txt "Market");
  description = absent;
  location_name = absent;
  latitude = absent;
  longitude = absent;
  geofence_radius_m = null;
  start_time = given (naive 100);
  end_time = given (naive 200);
  max_capacity = given (pos 1);
  checkin_method = absent;
  status = given (txt "published");
  visibility = absent;
  allow_nfc_checkin = absent;
  group_id = absent;
  group_kind = absent;
}

abbrev renamed : UpdateBody
renamed = record {
  title = given (txt "Fair");
  description = absent;
  location_name = absent;
  latitude = absent;
  longitude = absent;
  geofence_radius_m = absent;
  start_time = absent;
  end_time = absent;
  max_capacity = absent;
  checkin_method = absent;
  status = absent;
  visibility = absent;
  allow_nfc_checkin = absent;
}

abbrev season : Run
season = creates finished admin market none 10 (
    registers (updates (λ a b. false) admin 1 renamed 20 finished) (student ben) 1 none none 20
      (deletes admin 1 30 (purges none 40 finished)))

run-IsGrown_example :
    IsGrown full.registrations (run crypto keys floats knobs unset season full).registrations
run-IsGrown_example = run-IsGrown crypto keys floats knobs unset season full

-- A batch of an admin of another school, which the gate of the owner refuses.
abbrev stranger : Actor
stranger = record admin { school_id = some (txt "s2") }

abbrev batch : Write
batch = invite stranger 1 (record { invitee_user_id = ben; reason = none } ∷ []) 20

refusing : (serve crypto keys floats knobs batch full).0 ≡ some (http 404 event_not_found)
unfolding serve outcome send_invitations owner_gate resolve_event_for_owner first member
refusing = refl

serve_error_example : (serve crypto keys floats knobs batch full).1 ≡ full
serve_error_example =
    serve_error crypto keys floats knobs batch full (http 404 event_not_found) refusing
