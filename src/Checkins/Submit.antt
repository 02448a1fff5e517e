-- ===== src/Checkins/Submit.antt =====
-- POST /events/{id}/checkin of src/routers/checkins.py. A request either stops, with a response or
-- an error, or goes on. `race` is what other requests commit between the last query of the handler
-- and its insert.
mod Steps
use checkin_service.Base.{
  ℕ, ◌+◌, Bool, true, false, not, ◌&&◌, ◌||◌, Option, none, some, [], ◌==◌, first, update_where,
  if◌then◌else◌, Result, ok, err, HttpError, http, type_error, attendee_user_id_required,
  rate_limited_attendee, rate_limited_ip, event_not_found, checkin_disabled, nfc_disabled,
}
use checkin_service.Text.{Text, text_eq, is_empty, is_falsy, or_else}
use checkin_service.Models.{
  Db, Float, DateTime, Event, CheckinMethod, qr, geo, qr_geo, nfc, no_checkin, Checkin,
  Registration, RegistrationStatus, attended, QrToken, events, checkin_conflict,
}
use checkin_service.Models.Store.{add_row}
use checkin_service.Hashing.{Crypto, Keys, sha256_full, sanitize_text}
use checkin_service.Auth.Roles.{Actor}
use checkin_service.Auth.Gates.{assert_self_or_admin}
use checkin_service.Geo.Distance.{FloatOps, verify_distance, hash_coordinate}
use checkin_service.Geo.Signals.{
  Knobs, Attestation, attested, velocity_check, ip_country_check, event_country,
  verify_device_attestation, attestation_required,
}
use checkin_service.Qr.Token.{QrStatus}
use checkin_service.Qr.Service.{peek_token, is_valid, consume_token}
use checkin_service.Registrations.Gate.{is_open}
use checkin_service.Registrations.Defs.{by_attendee, is_cancelled}
use checkin_service.Checkins.Limiter.{Limiter, Throttle, attendee_limited, ip_limited, rate_limit}
pub use checkin_service.Checkins.Submit.Steps.{
  Outcome, Response, status_only, Request, Flow, ◌>>=◌, ◌>>◌, return_if, fail_if, attempt, Evidence,
  Plan, success, duplicate, geofence_failed, invalid_token, event_not_active, registration_required,
  velocity_implausible, ip_country_mismatch, attestation_missing, attestation_not_implemented,
  attestation_invalid, attendee_mismatch, stop, go,
}
unfoldable pub use checkin_service.Checkins.Submit.Steps.{
  checkin_target, attestation_outcome, attestation_gate, is_none_method, is_nfc, needs_qr,
  needs_geo, method_of, method_gate,
}

unfoldable pub is_attended : RegistrationStatus → Bool
is_attended s = elim s [ attended ↦ true | _ ↦ false ]

module _ (crypto : Crypto) (keys : Keys) (fl : FloatOps) (knobs : Knobs) where
  unfoldable pub qr_outcome : QrStatus → Outcome
  qr_outcome status = elim status [
    | QrStatus.attendee_mismatch ↦ attendee_mismatch
    | _ ↦ invalid_token
  ]

  unfoldable pub is_fault : QrStatus → Bool
  is_fault status = elim status [ QrStatus.fault ↦ true | _ ↦ false ]

  -- phase one of the token: peek
  unfoldable pub qr_gate :
      CheckinMethod → Request → ℕ → Text → DateTime → Db → Flow (Option QrToken × Option Text)
  unfolding qr_outcome is_fault
  qr_gate method q event_id target now db =
      if not (needs_qr method)
      then go (none, none)
      else if is_falsy q.qr_token
      then stop (ok (status_only invalid_token))
      else let raw = or_else q.qr_token [] in
        let v = peek_token crypto keys raw event_id events (some target) now db in
        if is_valid crypto keys v.status
        then go (v.qr_row, some (sha256_full crypto raw))
        else if is_fault v.status
        then stop (err (http 500 type_error))
        else stop (ok (status_only (qr_outcome v.status)))

  unfoldable pub geo_gate :
      CheckinMethod → Request → Event → Option QrToken × Option Text → Flow Evidence
  geo_gate method q event token =
      if not (needs_geo method)
      then go (record {
        qr_row = token.0;
        qr_token_hash = token.1;
        geofence_passed = none;
        distance_m = none;
        lat_hash = none;
        lon_hash = none;
      })
      else elim (verify_distance fl q.lat q.lon event.latitude event.longitude
          event.geofence_radius_m) [
            | err e ↦ stop (err e)
            | ok r ↦
                if not r.passed
                then stop (
                    ok (record {
                      checkin_id = none;
                      status = geofence_failed;
                      geofence_passed = some false;
                      distance_m = r.distance_m;
                      checkin_at = none;
                    }))
                else go (record {
                  qr_row = token.0;
                  qr_token_hash = token.1;
                  geofence_passed = some true;
                  distance_m = r.distance_m;
                  lat_hash = hash_coordinate fl crypto keys q.lat;
                  lon_hash = hash_coordinate fl crypto keys q.lon;
                })
          ]

  unfoldable pub registration_gate : ℕ → Text → Db → Flow Registration
  registration_gate event_id target db =
      elim (first (by_attendee event_id target) db.registrations) [
        | none ↦ stop (ok (status_only registration_required))
        | some r ↦
            if is_cancelled r.status then stop (ok (status_only registration_required)) else go r
      ]

  unfoldable pub event_gate : ℕ → Db → Flow Event
  event_gate event_id db = elim (first (λ (e : Event). e.id == event_id) db.events) [
    | none ↦ stop (err (http 404 event_not_found))
    | some e ↦ go e
  ]

  -- Everything between the rate limiter and the insert.
  unfoldable pub checkin_gate : ℕ → Request → Text → DateTime → Db → Flow Plan
  checkin_gate event_id q target now db = do
    attestation_gate knobs q
    event ← event_gate event_id db
    return_if (not (is_open event.status)) event_not_active
    return_if (not (ip_country_check knobs (event_country event) q.headers)) ip_country_mismatch
    plausible ← attempt (velocity_check fl knobs db target event now)
    return_if (not plausible) velocity_implausible
    let method = method_of q event
    method_gate method event
    token ← qr_gate method q event_id target now db
    evidence ← geo_gate method q event token
    registration ← registration_gate event_id target db
    go (record {
      target = target;
      event = event;
      method = method;
      evidence = evidence;
      registration = registration;
    })

  abbrev pub new_checkin : ℕ → Request → Plan → DateTime → Db → Checkin
  new_checkin event_id q plan now db = record {
    id = db.next_id;
    school_id = plan.event.school_id;
    event_id = event_id;
    attendee_user_id = plan.target;
    checkin_at = now;
    checkin_method = plan.method;
    qr_token_hash = plan.evidence.qr_token_hash;
    lat_hash = plan.evidence.lat_hash;
    lon_hash = plan.evidence.lon_hash;
    geofence_passed = plan.evidence.geofence_passed;
    notes_sn = sanitize_text q.notes 500;
  }

  -- The status is read again after the commit of the check-in. The assignment of the same status is no
  -- UPDATE.
  unfoldable pub set_attended : DateTime → Registration → Registration
  unfolding is_attended
  set_attended now r =
      if is_cancelled r.status || is_attended r.status
      then r
      else record r { status = attended; updated_at = now }

  unfoldable pub mark_attended : Registration → DateTime → Db → Db
  mark_attended r now db = record db {
    registrations =
        update_where (λ (x : Registration). x.id == r.id) (set_attended now) db.registrations;
  }

  -- phase two of the token: the row is read again and consumed
  unfoldable pub redeem : Option QrToken → Text → DateTime → Db → Db
  redeem none target now db = db
  redeem (some q) target now db = elim (first (λ (x : QrToken). x.id == q.id) db.qr_tokens) [
    | none ↦ db
    | some row ↦ consume_token row (some target) now db
  ]

  unfoldable pub of_pair : ℕ → Text → Checkin → Bool
  of_pair event_id target c = c.event_id == event_id && text_eq c.attendee_user_id target

  -- the insert, and what follows it
  unfoldable pub record_checkin : ℕ → Request → Plan → DateTime → Db → Result Response × Db
  unfolding redeem mark_attended of_pair
  record_checkin event_id q plan now db =
      let c = new_checkin event_id q plan now db in
      elim (add_row checkin_conflict c db.checkins) [
        | none ↦
            let existing = first (of_pair event_id plan.target) db.checkins in
            (
              ok (record {
                checkin_id = (elim existing [ none ↦ none | some x ↦ some x.id ]);
                status = duplicate;
                geofence_passed = none;
                distance_m = none;
                checkin_at = (elim existing [ none ↦ none | some x ↦ some x.checkin_at ]);
              }),
              db,
            )
        | some rows ↦ (
          ok (record {
            checkin_id = some c.id;
            status = success;
            geofence_passed = plan.evidence.geofence_passed;
            distance_m = plan.evidence.distance_m;
            checkin_at = some now;
          }),
          redeem plan.evidence.qr_row plan.target now (
              mark_attended plan.registration now
                (record db { checkins = rows; next_id = db.next_id + 1 })),
        )
      ]

  -- after the rate limiter has let the request through
  unfoldable pub submit_admitted :
      (Db → Db) → ℕ → Request → Text → DateTime → Db → Result Response × Db
  submit_admitted race event_id q target now db = elim (checkin_gate event_id q target now db) [
    | stop r ↦ (r, db)
    | go plan ↦ record_checkin event_id q plan now (race db)
  ]

  unfoldable pub throttled : Option Throttle → Option HttpError
  throttled none = none
  throttled (some (attendee_limited r)) = some (http 429 rate_limited_attendee)
  throttled (some (ip_limited r)) = some (http 429 rate_limited_ip)

  -- `tick` is `time.monotonic()` and `now` the time of day.
  unfoldable pub submit_checkin :
      (Db → Db)
      → Actor
      → ℕ
      → Request
      → Option Text
      → ℕ
      → DateTime
      → Limiter
      → Db
      → Result Response × Limiter × Db
  unfolding checkin_target throttled
  submit_checkin race actor event_id q client_ip tick now limiter db =
      elim (checkin_target actor q) [
        | err e ↦ (err e, limiter, db)
        | ok target ↦ elim (assert_self_or_admin actor target) [
          | err e ↦ (err e, limiter, db)
          | ok u ↦
              let (throttle, limiter') = rate_limit target event_id client_ip tick limiter in
              elim (throttled throttle) [
                | some e ↦ (err e, limiter', db)
                | none ↦
                    let (r, db') = submit_admitted race event_id q target now db in
                    (r, limiter', db')
              ]
        ]
      ]
