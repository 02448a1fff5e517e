-- ===== src/Checkins/Cleared.antt =====
-- What the checks of POST /events/{id}/checkin of src/routers/checkins.py stand for.
use mathlib.Core.Path.{subst, ap}
use checkin_service.Base.{
  ◌∙◌, ℕ, ok, Bool-cases, inl, inr, Result-cases, ◌≡◌, refl, Bool, true, false, not, Option, none,
  some, [], first, ◌==◌, arith,
}
use checkin_service.Text.{Text, or_else}
use checkin_service.Models.{Db, DateTime, Event, CheckinMethod, Registration, QrToken, events}
use checkin_service.Hashing.{Crypto, Keys}
use checkin_service.Geo.Distance.{FloatOps, GeofenceCheck, verify_distance}
use checkin_service.Geo.Signals.{
  Knobs, attested, velocity_check, ip_country_check, event_country, verify_device_attestation,
  attestation_required,
}
use checkin_service.Qr.Service.{peek_token, is_valid}
use checkin_service.Registrations.Gate.{is_open}
use checkin_service.Registrations.Defs.{by_attendee, is_cancelled}
use checkin_service.Checkins.Submit
use checkin_service.Checkins.Flows.{>>=-eq-go, return_if-eq-go, attempt-eq-go}

module _ (crypto : Crypto) (keys : Keys) (fl : FloatOps) (knobs : Knobs) where
  -- Everything that a plan of a check-in has passed.
  pub record IsCleared (event_id : ℕ) (q : Submit.Request) (target : Text) (now : DateTime)
      (db : Db) (plan : Submit.Plan) : Type 0 where
    pub for_target : plan.target ≡ target
    pub device :
        attestation_required knobs ≡ true
        → verify_device_attestation knobs q.attestation_platform q.attestation_token ≡ attested
    pub found : first (λ (e : Event). e.id == event_id) db.events ≡ some plan.event
    pub event_open : is_open plan.event.status ≡ true
    pub country : ip_country_check knobs (event_country plan.event) q.headers ≡ true
    pub velocity : velocity_check fl knobs db target plan.event now ≡ ok true
    pub by_method : plan.method ≡ Submit.method_of q plan.event
    pub enabled : Submit.is_none_method plan.method ≡ false
    pub nfc_allowed : Submit.is_nfc plan.method ≡ true → plan.event.allow_nfc_checkin ≡ true
    pub token :
        Submit.needs_qr plan.method ≡ true
        → (is_valid crypto keys
              (peek_token crypto keys
                (or_else q.qr_token [])
                event_id
                events
                (some target)
                now
                db).status
            ≡ true)
          × (plan.evidence.qr_row
              ≡ (peek_token crypto keys
                  (or_else q.qr_token [])
                  event_id
                  events
                  (some target)
                  now
                  db).qr_row)
    pub no_token : Submit.needs_qr plan.method ≡ false → plan.evidence.qr_row ≡ none
    pub fence :
        Submit.needs_geo plan.method ≡ true
        → (check : GeofenceCheck) × (verify_distance fl q.lat q.lon plan.event.latitude
              plan.event.longitude plan.event.geofence_radius_m
            ≡ ok check)
          × (check.passed ≡ true)
    pub entry : first (by_attendee event_id target) db.registrations ≡ some plan.registration
    pub standing : is_cancelled plan.registration.status ≡ false

  attestation_gate-eq-go :
      (q : Submit.Request) {u : Unit {0}}
      → Submit.attestation_gate knobs q ≡ Submit.go u
      → attestation_required knobs ≡ true
      → verify_device_attestation knobs q.attestation_platform q.attestation_token ≡ attested
  unfolding Submit.attestation_gate Submit.attestation_outcome
  attestation_gate-eq-go q h r = ground arith

  event_gate-eq-go :
      (event_id : ℕ) (db : Db) {e : Event}
      → Submit.event_gate crypto keys fl knobs event_id db ≡ Submit.go e
      → first (λ (e : Event). e.id == event_id) db.events ≡ some e
  unfolding Submit.event_gate
  event_gate-eq-go event_id db h = ground arith

  registration_gate-eq-go :
      (event_id : ℕ) (target : Text) (db : Db) {r : Registration}
      → Submit.registration_gate crypto keys fl knobs event_id target db ≡ Submit.go r
      → (first (by_attendee event_id target) db.registrations ≡ some r)
        × (is_cancelled r.status ≡ false)
  unfolding Submit.registration_gate
  registration_gate-eq-go event_id target db h = ground arith

  method_gate-eq-go :
      (m : CheckinMethod) (e : Event) {u : Unit {0}}
      → Submit.method_gate m e ≡ Submit.go u
      → (Submit.is_none_method m ≡ false) × (Submit.is_nfc m ≡ true → e.allow_nfc_checkin ≡ true)
  unfolding Submit.method_gate
  method_gate-eq-go m e h = (ground arith, ground arith)

  qr_gate-eq-go :
      (m : CheckinMethod) (q : Submit.Request) (event_id : ℕ) (target : Text) (now : DateTime)
      (db : Db) {t : Option QrToken × Option Text}
      → Submit.qr_gate crypto keys fl knobs m q event_id target now db ≡ Submit.go t
      → (Submit.needs_qr m ≡ true
          → (is_valid crypto keys
                (peek_token crypto keys
                  (or_else q.qr_token [])
                  event_id
                  events
                  (some target)
                  now
                  db).status
              ≡ true)
            × (t.0
                ≡ (peek_token crypto keys
                    (or_else q.qr_token [])
                    event_id
                    events
                    (some target)
                    now
                    db).qr_row))
        × (Submit.needs_qr m ≡ false → t.0 ≡ none)
  unfolding Submit.qr_gate
  qr_gate-eq-go m q event_id target now db h =
      (λ n. (ground arith, ground arith), λ n. ground arith)

  geo_gate-eq-go :
      (m : CheckinMethod) (q : Submit.Request) (event : Event) (t : Option QrToken × Option Text)
      {ev : Submit.Evidence}
      → Submit.geo_gate crypto keys fl knobs m q event t ≡ Submit.go ev
      → (Submit.needs_geo m ≡ true
          → (check : GeofenceCheck) × (verify_distance fl q.lat q.lon event.latitude event.longitude
                event.geofence_radius_m
              ≡ ok check)
            × (check.passed ≡ true))
        × (ev.qr_row ≡ t.0)
  unfolding Submit.geo_gate
  geo_gate-eq-go m q event t h = elim (Bool-cases (Submit.needs_geo m)) [
    | inr e ↦ (λ n. absurd (cc (n, e)), ground arith)
    | inl e ↦
        elim (Result-cases
          (verify_distance fl q.lat q.lon event.latitude event.longitude event.geofence_radius_m)) [
            | inl (x, f) ↦ absurd (ground arith)
            | inr (check, f) ↦ (λ n. (check, f, ground arith), ground arith)
          ]
  ]

  pub checkin_gate-IsCleared :
      (event_id : ℕ) (q : Submit.Request) (target : Text) (now : DateTime) (db : Db)
      (plan : Submit.Plan)
      → Submit.checkin_gate crypto keys fl knobs event_id q target now db ≡ Submit.go plan
      → IsCleared event_id q target now db plan
  unfolding Submit.checkin_gate
  checkin_gate-IsCleared event_id q target now db plan h =
      let (u1, a1, h1) = >>=-eq-go (Submit.attestation_gate knobs q) _ h in
      let (event, a2, h2) = >>=-eq-go (Submit.event_gate crypto keys fl knobs event_id db) _ h1 in
      let (u3, a3, h3) = >>=-eq-go (Submit.return_if (not (is_open event.status)) _) _ h2 in
      let (u4, a4, h4) =
        >>=-eq-go
          (Submit.return_if (not (ip_country_check knobs (event_country event) q.headers)) _) _
          h3 in
      let (u5, a5, h5) =
        >>=-eq-go (Submit.attempt (velocity_check fl knobs db target event now)) _ h4 in
      let (u5', a5', h5') = >>=-eq-go (Submit.return_if (not u5) _) _ h5 in
      let (u6, a6, h6) = >>=-eq-go (Submit.method_gate (Submit.method_of q event) event) _ h5' in
      let (token, a7, h7) =
        >>=-eq-go
          (Submit.qr_gate crypto keys fl knobs (Submit.method_of q event) q event_id target now db)
          _ h6 in
      let (ev, a8, h8) =
        >>=-eq-go (Submit.geo_gate crypto keys fl knobs (Submit.method_of q event) q event token) _
          h7 in
      let (r, a9, h9) =
        >>=-eq-go (Submit.registration_gate crypto keys fl knobs event_id target db) _ h8 in
      subst (IsCleared event_id q target now db) (go_plan h9) (record {
        for_target = refl;
        device = attestation_gate-eq-go q a1;
        found = event_gate-eq-go event_id db a2;
        event_open = not-false _ (return_if-eq-go _ _ a3);
        country = not-false _ (return_if-eq-go _ _ a4);
        velocity = attempt-eq-go _ a5 ∙ ap ok (not-false u5 (return_if-eq-go _ _ a5'));
        by_method = refl;
        enabled = (method_gate-eq-go _ _ a6).0;
        nfc_allowed = (method_gate-eq-go _ _ a6).1;
        token = λ n.
            let t = (qr_gate-eq-go _ q event_id target now db a7).0 n in
            (t.0, (geo_gate-eq-go _ q event token a8).1 ∙ t.1);
        no_token = λ n.
            (geo_gate-eq-go _ q event token a8).1
            ∙ (qr_gate-eq-go _ q event_id target now db a7).1 n;
        fence = (geo_gate-eq-go _ q event token a8).0;
        entry = (registration_gate-eq-go event_id target db a9).0;
        standing = (registration_gate-eq-go event_id target db a9).1;
      })
    where
      go_plan : {A : Type 0} → {a b : A} → Submit.go a ≡ Submit.go b → a ≡ b
      go_plan e = cc

      not-false : (b : Bool) → not b ≡ false → b ≡ true
      not-false true e = refl
      not-false false e = cc
