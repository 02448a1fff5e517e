-- ===== src/Geo/Signals.antt =====
-- src/services/geo_verification.py
use checkin_service.Base.{
  Result, ok, err, ℕ, ◌+◌, ◌-◌, Bool, true, false, not, ◌&&◌, ◌||◌, Option, none, some, List, [],
  ◌∷◌, leb, ltb, ◌==◌, first, select, if◌then◌else◌,
}
use checkin_service.Text.{take, upper, strip, is_empty, Text, txt, text_eq, is_falsy, or_else}
use checkin_service.Text.Numerals.{ℤ, pos, negsuc}
use checkin_service.Env.{Environment, env_bool, env_int, env_float, is_dev}
use checkin_service.Models.{Float, DateTime, Db, Event, Checkin}
use checkin_service.Geo.Distance.{FloatOps, haversine_distance_m}

-- What the checks read of the environment.
pub record Knobs : Type 0 where
  pub velocity_check_enabled : Bool
  pub velocity_window_seconds : ℤ
  pub velocity_max_mph : Float
  pub ip_country_check_enabled : Bool
  pub require_device_attestation : Bool
  pub skip_device_attestation : Bool
  pub is_dev : Bool

-- `float` of a text is a parameter; `none` is its `ValueError`.
unfoldable pub knobs_of : (Text → Option Float) → FloatOps → Environment → Knobs
knobs_of parse_float fl env = record {
  velocity_check_enabled = env_bool env (txt "VELOCITY_CHECK_ENABLED") (txt "true");
  velocity_window_seconds = env_int env (txt "VELOCITY_WINDOW_SECONDS") (pos 7200);
  velocity_max_mph = env_float parse_float env (txt "VELOCITY_MAX_MPH") (fl.of_int (pos 500));
  ip_country_check_enabled = env_bool env (txt "IP_COUNTRY_CHECK_ENABLED") (txt "true");
  require_device_attestation = env_bool env (txt "REQUIRE_DEVICE_ATTESTATION") (txt "false");
  skip_device_attestation = env_bool env (txt "SKIP_DEVICE_ATTESTATION") (txt "false");
  is_dev = is_dev env;
}

-- `checkin_at >= now - window`
unfoldable pub is_within : ℤ → DateTime → DateTime → Bool
is_within (pos w) now at = leb now (at + w)
is_within (negsuc w) now at = leb (now + (w + 1)) at

-- `.order_by(checkin_at.desc()).first()`
unfoldable pub latest : List Checkin → Option Checkin
latest [] = none
latest (c ∷ cs) = elim (latest cs) [
  | none ↦ some c
  | some d ↦ if ltb c.checkin_at d.checkin_at then some d else some c
]

-- a check-in of the attendee at another event, within the window
unfoldable pub is_prior : Knobs → Text → ℕ → DateTime → Checkin → Bool
is_prior knobs attendee event_id now c =
    text_eq c.attendee_user_id attendee
    && not (c.event_id == event_id)
    && is_within knobs.velocity_window_seconds now c.checkin_at

module _ (fl : FloatOps) (knobs : Knobs) where
  -- the implied speed over a distance
  unfoldable pub speed_ok : Float → ℕ → Bool
  speed_ok distance elapsed =
      let mph = fl.mul (fl.div distance (fl.of_int (pos elapsed))) fl.mph_per_mps in
      not (fl.lt knobs.velocity_max_mph mph)

  -- against the venue of the prior check-in
  unfoldable pub prior_ok : Db → Checkin → Float → Float → DateTime → Result Bool
  unfolding speed_ok
  prior_ok db prior lat lon now = elim (first (λ (e : Event). e.id == prior.event_id) db.events) [
    | none ↦ ok true
    | some e ↦ elim e.latitude [
      | none ↦ ok true
      | some plat ↦ elim e.longitude [
        | none ↦ ok true
        | some plon ↦ elim (haversine_distance_m fl plat plon lat lon) [
          | err e ↦ err e
          | ok distance ↦ ok (
              if leb now prior.checkin_at then true else speed_ok distance (now - prior.checkin_at))
        ]
      ]
    ]
  ]

  unfoldable pub velocity_check : Db → Text → Event → DateTime → Result Bool
  unfolding prior_ok is_prior latest
  velocity_check db attendee event now =
      if not knobs.velocity_check_enabled then ok true else elim event.latitude [
        | none ↦ ok true
        | some lat ↦ elim event.longitude [
          | none ↦ ok true
          | some lon ↦ elim (latest (select (is_prior knobs attendee event.id now) db.checkins)) [
            | none ↦ ok true
            | some prior ↦ prior_ok db prior lat lon now
          ]
        ]
      ]

-- the header of the viewer's country, by its first two letters
unfoldable pub viewer_country_in : List Text → (Text → Option Text) → Option Text
viewer_country_in [] headers = none
viewer_country_in (key ∷ keys) headers =
    let rest = viewer_country_in keys headers in
    elim (headers key) [
      | none ↦ rest
      | some value ↦
          if is_empty value
          then rest
          else let country = take 2 (upper (strip value)) in
            if is_empty country then none else some country
    ]

abbrev pub country_headers : List Text
country_headers =
    txt "CloudFront-Viewer-Country"
    ∷ txt "cloudfront-viewer-country"
    ∷ txt "X-Appengine-Country"
    ∷ txt "x-appengine-country"
    ∷ []

unfoldable pub extract_viewer_country : (Text → Option Text) → Option Text
unfolding viewer_country_in
extract_viewer_country headers = viewer_country_in country_headers headers

-- `getattr(event, "country", None)`: the row has no such column.
unfoldable pub event_country : Event → Option Text
event_country event = none

unfoldable pub ip_country_check : Knobs → Option Text → (Text → Option Text) → Bool
unfolding extract_viewer_country
ip_country_check knobs country headers =
    if not knobs.ip_country_check_enabled
    then true
    else if is_falsy country
    then true
    else elim (extract_viewer_country headers) [
      | none ↦ true
      | some viewer ↦ text_eq (take 2 (upper (strip (or_else country [])))) viewer
    ]

pub data Attestation : Type 0 where
  attested attestation_missing attestation_invalid_platform attestation_not_implemented :
      Attestation

-- Without a payload of both fields nothing is attested, and with one neither.
unfoldable pub verify_device_attestation : Knobs → Option Text → Option Text → Attestation
verify_device_attestation knobs platform token =
    if knobs.is_dev && knobs.skip_device_attestation
    then attested
    else if is_falsy platform || is_falsy token
    then attestation_missing
    else if not
        (text_eq (or_else platform []) (txt "ios") || text_eq (or_else platform []) (txt "android"))
    then attestation_invalid_platform
    else attestation_not_implemented

unfoldable pub attestation_required : Knobs → Bool
attestation_required knobs =
    if not knobs.require_device_attestation
    then false
    else not (knobs.is_dev && knobs.skip_device_attestation)
