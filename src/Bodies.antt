-- ===== src/Bodies.antt =====
-- The bodies of the other requests and their validators, of src/schemas/: registration.py, checkin.py,
-- event_invitation.py and qr_token.py.
pub mod Minting
use checkin_service.Base.{
  ℕ, Bool, true, false, Option, none, some, List, [], ◌∷◌, length, Result, ok, err, require, http,
  leb, ◌&&◌, ◌||◌, if◌then◌else◌, validation_error, ◌>>=◌, ◌>>◌,
}
use checkin_service.Text.{Text, txt, text_eq}
use checkin_service.Text.Numerals.{ℤ, pos, negsuc}
use checkin_service.Models.{Float, CheckinMethod, manual, qr, geo, qr_geo, nfc}
use checkin_service.Geo.Distance.{FloatOps}
use checkin_service.Events.Schema.{
  Field, absent, null, given, sized, ranged, within, mandatory, optional, defaulted,
}
use checkin_service.Invitations.{Invitee}
use checkin_service.Checkins.Submit.{Request}

-- RegistrationCreateRequest
unfoldable pub validate_registration : Field Text → Result (Option Text)
validate_registration attendee = optional (sized 0 36) none attendee

pub record MintBody : Type 0 where
  pub ttl_minutes : Field ℤ
  pub single_use : Field Bool
  pub attendee_user_id : Field Text

pub record MintRequest : Type 0 where
  pub ttl_minutes : ℕ
  pub single_use : Bool
  pub attendee_user_id : Option Text

-- QrTokenMintRequest
unfoldable pub validate_mint : MintBody → Result MintRequest
validate_mint b = do
  ttl ← defaulted (ranged 1 720) 60 b.ttl_minutes
  single_use ← defaulted (λ v. some v) true b.single_use
  attendee ← optional (sized 0 36) none b.attendee_user_id
  ok (record { ttl_minutes = ttl; single_use = single_use; attendee_user_id = attendee })

pub record InviteeBody : Type 0 where
  pub invitee_user_id : Field Text
  pub reason : Field Text

-- InvitationSendItem
unfoldable pub validate_invitee : InviteeBody → Result Invitee
validate_invitee b = do
  invitee ← mandatory (sized 1 36) b.invitee_user_id
  reason ← optional (sized 0 2000) none b.reason
  ok (record { invitee_user_id = invitee; reason = reason })

unfoldable pub validate_invitees : List InviteeBody → Result (List Invitee)
unfolding validate_invitee
validate_invitees [] = ok []
validate_invitees (b ∷ bs) =
    validate_invitee b >>= λ item. validate_invitees bs >>= λ items. ok (item ∷ items)

-- InvitationSendRequest
unfoldable pub validate_send : List InviteeBody → Result (List Invitee)
unfolding validate_invitees
validate_send bs = do
  require (leb 1 (length bs) && leb (length bs) 500) (http 422 validation_error)
  validate_invitees bs

pub record CheckinBody : Type 0 where
  pub attendee_user_id : Field Text
  pub qr_token : Field Text
  pub lat : Field Float
  pub lon : Field Float
  pub notes : Field Text
  pub checkin_method : Field Text
  pub device_attestation : Field (Field Text × Field Text)

-- CheckinMethodAudit
unfoldable pub audited_method : Text → Option CheckinMethod
audited_method s =
    if text_eq s (txt "manual")
    then some manual
    else if text_eq s (txt "qr")
    then some qr
    else if text_eq s (txt "geo")
    then some geo
    else if text_eq s (txt "qr_geo")
    then some qr_geo
    else if text_eq s (txt "nfc")
    then some nfc
    else none

unfoldable pub platform_of : Text → Option Text
platform_of s = if text_eq s (txt "ios") || text_eq s (txt "android") then some s else none

-- DeviceAttestation, where it is supplied: its platform and its token
unfoldable pub validate_attestation :
    Field (Field Text × Field Text) → Result (Option Text × Option Text)
unfolding platform_of
validate_attestation absent = ok (none, none)
validate_attestation null = ok (none, none)
validate_attestation (given a) = do
  platform ← mandatory platform_of a.0
  token ← mandatory (sized 1 4096) a.1
  ok (some platform, some token)

-- CheckinRequest, with the headers of the request
unfoldable pub validate_checkin : FloatOps → (Text → Option Text) → CheckinBody → Result Request
validate_checkin fl headers b = do
  attendee ← optional (sized 0 36) none b.attendee_user_id
  qr_token ← optional (sized 0 512) none b.qr_token
  lat ← optional (within fl (negsuc 89) (pos 90)) none b.lat
  lon ← optional (within fl (negsuc 179) (pos 180)) none b.lon
  notes ← optional (sized 0 500) none b.notes
  method ← optional audited_method none b.checkin_method
  attestation ← validate_attestation b.device_attestation
  ok (record {
    attendee_user_id = attendee;
    qr_token = qr_token;
    lat = lat;
    lon = lon;
    notes = notes;
    checkin_method = method;
    attestation_platform = attestation.0;
    attestation_token = attestation.1;
    headers = headers;
  })
