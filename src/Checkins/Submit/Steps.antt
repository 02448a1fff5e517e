-- ===== src/Checkins/Submit/Steps.antt =====
-- The request, the responses and the early returns of POST /events/{id}/checkin of
-- src/routers/checkins.py, and the choice of its method.
use checkin_service.Base.{
  ℕ, Bool, true, false, not, ◌&&◌, Option, none, some, [], if◌then◌else◌, Result, ok, err,
  HttpError, http, attendee_user_id_required, checkin_disabled, nfc_disabled,
}
use checkin_service.Text.{Text, is_empty, or_else}
use checkin_service.Models.{
  Float, DateTime, Event, CheckinMethod, qr, geo, qr_geo, nfc, no_checkin, Registration, QrToken,
}
use checkin_service.Auth.Roles.{Actor}
use checkin_service.Geo.Signals.{
  Knobs, Attestation, attested, verify_device_attestation, attestation_required,
}

-- the statuses of a `CheckinResponse`
pub data Outcome : Type 0 where
  success duplicate geofence_failed invalid_token event_not_active registration_required : Outcome
  velocity_implausible ip_country_mismatch attestation_missing : Outcome
  attestation_not_implemented attestation_invalid attendee_mismatch : Outcome

pub record Response : Type 0 where
  pub checkin_id : Option ℕ
  pub status : Outcome
  pub geofence_passed : Option Bool
  pub distance_m : Option Float
  pub checkin_at : Option DateTime

abbrev pub status_only : Outcome → Response
status_only o = record {
  checkin_id = none;
  status = o;
  geofence_passed = none;
  distance_m = none;
  checkin_at = none;
}

pub record Request : Type 0 where
  pub attendee_user_id : Option Text
  pub qr_token : Option Text
  pub lat : Option Float
  pub lon : Option Float
  pub notes : Option Text
  pub checkin_method : Option CheckinMethod
  pub attestation_platform : Option Text
  pub attestation_token : Option Text
  -- the headers of the request, by their names in lower case
  pub headers : Text → Option Text

-- What a step of the handler leads to.
pub data Flow (A : Type 0) : Type 0 where
  stop : Result Response → Flow A
  go : A → Flow A

infixl 5 ◌>>=◌ ◌>>◌
abbrev pub ◌>>=◌ : {A B : Type 0} → Flow A → (A → Flow B) → Flow B
stop r >>= f = stop r
go a >>= f = f a

abbrev pub ◌>>◌ : {B : Type 0} → Flow (Unit {0}) → Flow B → Flow B
m >> k = m >>= λ _. k

-- `if b: return CheckinResponse(status=…)`, and `if b: raise …`
abbrev pub return_if : Bool → Outcome → Flow (Unit {0})
return_if true o = stop (ok (status_only o))
return_if false o = go tt

abbrev pub fail_if : Bool → HttpError → Flow (Unit {0})
fail_if true e = stop (err e)
fail_if false e = go tt

abbrev pub attempt : {A : Type 0} → Result A → Flow A
attempt (ok a) = go a
attempt (err e) = stop (err e)

unfoldable pub checkin_target : Actor → Request → Result Text
checkin_target actor q =
    let target = or_else q.attendee_user_id (or_else actor.user_id []) in
    if is_empty target then err (http 400 attendee_user_id_required) else ok target

unfoldable pub attestation_outcome : Attestation → Flow (Unit {0})
attestation_outcome attested = go tt
attestation_outcome Attestation.attestation_missing = stop (ok (status_only attestation_missing))
attestation_outcome Attestation.attestation_invalid_platform =
    stop (ok (status_only attestation_invalid))
attestation_outcome Attestation.attestation_not_implemented =
    stop (ok (status_only attestation_not_implemented))

-- The schema makes the platform and the token of a payload non-empty.
unfoldable pub attestation_gate : Knobs → Request → Flow (Unit {0})
unfolding attestation_outcome
attestation_gate knobs q =
    if attestation_required knobs
    then attestation_outcome
        (verify_device_attestation knobs q.attestation_platform q.attestation_token)
    else go tt

unfoldable pub is_none_method : CheckinMethod → Bool
is_none_method m = elim m [ no_checkin ↦ true | _ ↦ false ]

unfoldable pub is_nfc : CheckinMethod → Bool
is_nfc m = elim m [ nfc ↦ true | _ ↦ false ]

-- `method in {"qr", "qr_geo"}`
unfoldable pub needs_qr : CheckinMethod → Bool
needs_qr m = elim m [ qr ↦ true | qr_geo ↦ true | _ ↦ false ]

-- `method in {"geo", "qr_geo"}`
unfoldable pub needs_geo : CheckinMethod → Bool
needs_geo m = elim m [ geo ↦ true | qr_geo ↦ true | _ ↦ false ]

-- `declared_method or event.checkin_method`
unfoldable pub method_of : Request → Event → CheckinMethod
method_of q event = elim q.checkin_method [ none ↦ event.checkin_method | some m ↦ m ]

unfoldable pub method_gate : CheckinMethod → Event → Flow (Unit {0})
unfolding is_none_method is_nfc
method_gate method event = do
  fail_if (is_none_method method) (http 409 checkin_disabled)
  fail_if (is_nfc method && not event.allow_nfc_checkin) (http 409 nfc_disabled)
  go tt

-- What the two checks leave for the row: the token's row and hash, the flag, distance and hashes.
pub record Evidence : Type 0 where
  pub qr_row : Option QrToken
  pub qr_token_hash : Option Text
  pub geofence_passed : Option Bool
  pub distance_m : Option Float
  pub lat_hash : Option Text
  pub lon_hash : Option Text

-- A request that has passed every check.
pub record Plan : Type 0 where
  pub target : Text
  pub event : Event
  pub method : CheckinMethod
  pub evidence : Evidence
  pub registration : Registration
