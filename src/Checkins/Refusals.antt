-- ===== src/Checkins/Refusals.antt =====
-- The stops of POST /events/{id}/checkin of src/routers/checkins.py before its insert.
use checkin_service.Base.{
  ℕ, ◌≡◌, refl, true, false, not, ◌&&◌, Option, none, some, [], first, ◌==◌, if◌then◌else◌, ok, err,
  http, event_not_found, arith, Bool-cases, inl, inr, Result-cases,
}
use checkin_service.Text.{Text, is_falsy, or_else}
use checkin_service.Models.{Db, DateTime, Event, CheckinMethod, Registration, QrToken, events}
use checkin_service.Hashing.{Crypto, Keys}
use checkin_service.Geo.Distance.{FloatOps, verify_distance}
use checkin_service.Geo.Signals.{
  Knobs, Attestation, attested, velocity_check, ip_country_check, event_country,
  verify_device_attestation, attestation_required,
}
use checkin_service.Qr.Token.{QrStatus}
use checkin_service.Qr.Service.{peek_token, is_valid}
use checkin_service.Registrations.Gate.{is_open}
use checkin_service.Registrations.Defs.{by_attendee, is_cancelled}
use checkin_service.Checkins.Submit
use checkin_service.Checkins.Flows.{
  is_success, IsRefusing, >>=-IsRefusing, return_if-IsRefusing, attempt-IsRefusing,
}

module _ (crypto : Crypto) (keys : Keys) (fl : FloatOps) (knobs : Knobs) where
  qr_outcome_refuses :
      (s : QrStatus) → is_success (Submit.qr_outcome crypto keys fl knobs s) ≡ false
  unfolding Submit.qr_outcome is_success
  qr_outcome_refuses s = ground arith

  attestation_refuses : (q : Submit.Request) → IsRefusing (Submit.attestation_gate knobs q)
  unfolding Submit.attestation_gate Submit.attestation_outcome is_success
  attestation_refuses q =
      elim (attestation_required knobs)
        as (λ b. IsRefusing (
          if b
          then Submit.attestation_outcome
              (verify_device_attestation knobs q.attestation_platform q.attestation_token)
          else Submit.go tt)) [
            | true ↦
                elim (verify_device_attestation knobs q.attestation_platform q.attestation_token)
                  as (λ a. IsRefusing (Submit.attestation_outcome a)) [
                    | attested ↦ tt
                    | Attestation.attestation_missing ↦ refl
                    | Attestation.attestation_invalid_platform ↦ refl
                    | Attestation.attestation_not_implemented ↦ refl
                  ]
            | false ↦ tt
          ]

  event_refuses :
      (event_id : ℕ) (db : Db) → IsRefusing (Submit.event_gate crypto keys fl knobs event_id db)
  unfolding Submit.event_gate
  event_refuses event_id db =
      elim (first (λ (e : Event). e.id == event_id) db.events)
        as (λ (o : Option Event).
          IsRefusing (elim o [
            | none ↦ Submit.stop (err (http 404 event_not_found))
            | some e ↦ Submit.go e
          ])) [ none ↦ tt | some x ↦ tt ]

  method_refuses : (m : CheckinMethod) (e : Event) → IsRefusing (Submit.method_gate m e)
  unfolding Submit.method_gate
  method_refuses m e = elim (Bool-cases (Submit.is_none_method m)) [
    | inl f ↦ rw f tt
    | inr f ↦ elim (Bool-cases (Submit.is_nfc m && not e.allow_nfc_checkin)) [
      | inl g ↦ rw f (rw g tt)
      | inr g ↦ rw f (rw g tt)
    ]
  ]

  qr_refuses :
      (m : CheckinMethod) (q : Submit.Request) (event_id : ℕ) (target : Text) (now : DateTime)
      (db : Db)
      → IsRefusing (Submit.qr_gate crypto keys fl knobs m q event_id target now db)
  unfolding Submit.qr_gate is_success Submit.qr_outcome
  qr_refuses m q event_id target now db = elim (Bool-cases (Submit.needs_qr m)) [
    | inr e ↦ rw e tt
    | inl e ↦ elim (Bool-cases (is_falsy q.qr_token)) [
      | inl f ↦ rw e (rw f refl)
      | inr f ↦
          let v =
            peek_token crypto keys (or_else q.qr_token []) event_id events (some target) now db in
          elim (Bool-cases (is_valid crypto keys v.status)) [
            | inl g ↦ rw e (rw f (rw g tt))
            | inr g ↦ elim (Bool-cases (Submit.is_fault crypto keys fl knobs v.status)) [
              | inl t ↦ rw e (rw f (rw g (rw t tt)))
              | inr t ↦ rw e (rw f (rw g (rw t (qr_outcome_refuses v.status))))
            ]
          ]
    ]
  ]

  geo_refuses :
      (m : CheckinMethod) (q : Submit.Request) (event : Event) (t : Option QrToken × Option Text)
      → IsRefusing (Submit.geo_gate crypto keys fl knobs m q event t)
  unfolding Submit.geo_gate is_success
  geo_refuses m q event t = elim (Bool-cases (Submit.needs_geo m)) [
    | inr e ↦ rw e tt
    | inl e ↦
        elim (Result-cases
          (verify_distance fl q.lat q.lon event.latitude event.longitude event.geofence_radius_m)) [
            | inl (x, g) ↦ rw e (rw g tt)
            | inr (check, g) ↦ elim (Bool-cases check.passed) [
              | inl f ↦ rw e (rw g (rw f tt))
              | inr f ↦ rw e (rw g (rw f refl))
            ]
          ]
  ]

  registration_refuses :
      (event_id : ℕ) (target : Text) (db : Db)
      → IsRefusing (Submit.registration_gate crypto keys fl knobs event_id target db)
  unfolding Submit.registration_gate is_success
  registration_refuses event_id target db =
      elim (first (by_attendee event_id target) db.registrations)
        as (λ (o : Option Registration). IsRefusing (elim o [
          | none ↦ Submit.stop (ok (Submit.status_only Submit.registration_required))
          | some r ↦
              if is_cancelled r.status
              then Submit.stop (ok (Submit.status_only Submit.registration_required))
              else Submit.go r
        ])) [
          | none ↦ refl
          | some r ↦
              elim (is_cancelled r.status)
                as (λ b. IsRefusing (
                  if b
                  then Submit.stop (ok (Submit.status_only Submit.registration_required))
                  else Submit.go r)) [ true ↦ refl | false ↦ tt ]
        ]

  -- The checks never report a success.
  pub checkin_gate-IsRefusing :
      (event_id : ℕ) (q : Submit.Request) (target : Text) (now : DateTime) (db : Db)
      → IsRefusing (Submit.checkin_gate crypto keys fl knobs event_id q target now db)
  unfolding Submit.checkin_gate is_success
  checkin_gate-IsRefusing event_id q target now db =
      >>=-IsRefusing {B = Submit.Plan} (Submit.attestation_gate knobs q) _ (attestation_refuses q)
        λ _.
          >>=-IsRefusing {B = Submit.Plan} (Submit.event_gate crypto keys fl knobs event_id db) _
            (event_refuses event_id db)
            λ event.
              >>=-IsRefusing {B = Submit.Plan}
                (Submit.return_if (not (is_open event.status)) Submit.event_not_active) _
                (return_if-IsRefusing (not (is_open event.status)) Submit.event_not_active refl)
                λ _.
                  >>=-IsRefusing {B = Submit.Plan}
                    (Submit.return_if (not (ip_country_check knobs (event_country event) q.headers))
                      Submit.ip_country_mismatch)
                    _
                    (return_if-IsRefusing
                      (not (ip_country_check knobs (event_country event) q.headers))
                      Submit.ip_country_mismatch refl)
                    λ _.
                      >>=-IsRefusing {B = Submit.Plan}
                        (Submit.attempt (velocity_check fl knobs db target event now)) _
                        (attempt-IsRefusing (velocity_check fl knobs db target event now))
                        λ plausible.
                          >>=-IsRefusing {B = Submit.Plan}
                            (Submit.return_if (not plausible) Submit.velocity_implausible) _
                            (return_if-IsRefusing (not plausible) Submit.velocity_implausible refl)
                            λ _.
                              >>=-IsRefusing {B = Submit.Plan}
                                (Submit.method_gate (Submit.method_of q event) event) _
                                (method_refuses (Submit.method_of q event) event)
                                λ _.
                                  >>=-IsRefusing {B = Submit.Plan}
                                    (Submit.qr_gate crypto keys fl knobs (Submit.method_of q event)
                                      q event_id target now db)
                                    _
                                    (qr_refuses (Submit.method_of q event) q event_id target now db)
                                    λ token.
                                      >>=-IsRefusing {B = Submit.Plan}
                                        (Submit.geo_gate crypto keys fl knobs
                                          (Submit.method_of q event) q event token)
                                        _ (geo_refuses (Submit.method_of q event) q event token)
                                        λ ev.
                                          >>=-IsRefusing {B = Submit.Plan}
                                            (Submit.registration_gate crypto keys fl knobs event_id
                                              target db)
                                            _ (registration_refuses event_id target db) λ r. tt
