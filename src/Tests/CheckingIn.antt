-- ===== src/Tests/CheckingIn.antt =====
-- Check-ins at the door, and at the rate limiter.
use checkin_service.Base.{ℕ, ◌+◌, ◌*◌, ◌≢◌, ◌≤◌, refl, none, some, [], ◌∷◌, arith, any, All}
use checkin_service.Text.{txt, text_eq}
use checkin_service.Models.{Db, CheckinMethod}
use checkin_service.Checkins.Submit
use checkin_service.Checkins.Once.{Accounts, IsRepeat, submit-Accounts, submit_again}
use checkin_service.Checkins.Limiter.{
  prune, rate_limit, second, attendee_limited, retry_after, attendee_event_max, Limiter,
}
use checkin_service.Checkins.Limiter.Window.{IsSpaced}
use checkin_service.Checkins.Limiter.Bound.{Call, admitted, IsTimed, empty, admitted-IsSpaced}
use checkin_service.Checkins.Limiter.Retry.{retry_after_suffices}
use checkin_service.Tests.Data.{ana, student, full, crypto, keys, floats, knobs}

abbrev request : Submit.Request
request = record {
  attendee_user_id = none;
  qr_token = none;
  lat = none;
  lon = none;
  notes = some (txt "hello");
  checkin_method = some CheckinMethod.manual;
  attestation_platform = none;
  attestation_token = none;
  headers = λ name. none;
}

submit-Accounts_example :
    Accounts crypto keys floats knobs
      (λ d. d)
      (student ana)
      1
      request
      100
      full
      (
        (Submit.submit_checkin crypto keys floats knobs
            (λ d. d)
            (student ana)
            1
            request
            none
            5
            100
            empty
            full).0,
        (Submit.submit_checkin crypto keys floats knobs
            (λ d. d)
            (student ana)
            1
            request
            none
            5
            100
            empty
            full).2,
      )
submit-Accounts_example =
    submit-Accounts crypto keys floats knobs (λ d. d) (student ana) 1 request none 5 100 empty full

abbrev checked : Db
checked = record full {
  checkins =
      record {
        id = 2;
        school_id = txt "s1";
        event_id = 1;
        attendee_user_id = ana;
        checkin_at = 90;
        checkin_method = CheckinMethod.manual;
        qr_token_hash = none;
        lat_hash = none;
        lon_hash = none;
        geofence_passed = none;
        notes_sn = none;
      }
      ∷ [];
}

submit_again_example :
    IsRepeat crypto keys floats knobs
      (λ d. d)
      checked
      (
        (Submit.submit_checkin crypto keys floats knobs
            (λ d. d)
            (student ana)
            1
            request
            none
            5
            100
            empty
            checked).0,
        (Submit.submit_checkin crypto keys floats knobs
            (λ d. d)
            (student ana)
            1
            request
            none
            5
            100
            empty
            checked).2,
      )
unfolding Submit.checkin_target any Submit.of_pair text_eq
submit_again_example =
    submit_again crypto keys floats knobs (λ d. d) (student ana) 1 request none 5 100 empty checked
      ana refl refl

abbrev call : ℕ → Call
call at = record { attendee = ana; event_id = 1; ip = some (txt "10.0.0.1"); at = at }

in_order : IsTimed 0 (call 0 ∷ call 1 ∷ call 2 ∷ call 3 ∷ call 4 ∷ call 5 ∷ [])
in_order =
    (omega arith, (omega arith, (omega arith, (omega arith, (omega arith, (omega arith, tt))))))

admitted-IsSpaced_example :
    IsSpaced attendee_event_max
      (admitted (ana, 1) (call 0 ∷ call 1 ∷ call 2 ∷ call 3 ∷ call 4 ∷ call 5 ∷ []) empty [])
admitted-IsSpaced_example =
    admitted-IsSpaced (ana, 1) (call 0 ∷ call 1 ∷ call 2 ∷ call 3 ∷ call 4 ∷ call 5 ∷ []) in_order

-- Ana has tried five times.
abbrev busy : Limiter
busy = record { attendee_event = λ k. 1 ∷ 2 ∷ 3 ∷ 4 ∷ 5 ∷ []; ip = λ k. [] }

past : All (λ t. t ≤ 6) (1 ∷ 2 ∷ 3 ∷ 4 ∷ 5 ∷ [])
past = (omega arith, (omega arith, (omega arith, (omega arith, (omega arith, tt)))))

retry_after_suffices_example :
    (1 ≤ 60)
    × (60 ≤ 61)
    × ((rate_limit ana 1 none (6 + 60 * second) (rate_limit ana 1 none 6 busy).1).0
        ≢ some (attendee_limited 60))
unfolding rate_limit prune retry_after
retry_after_suffices_example =
    retry_after_suffices ana 1 none none 6 60 60 busy (omega arith) past refl
