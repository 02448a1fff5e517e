-- ===== src/System/Refined.antt =====
-- The whole service implements the life of a registration, by induction on the run.
use mathlib.Core.Path.{subst}
use checkin_service.Base.{
  ℕ, ◌≡◌, refl, sym, Bool-cases, ◌||◌, arith, not, is_some, Option, some, List, inl, inr,
  Result-cases, ◌==◌,
}
use checkin_service.Text.{Text}
use checkin_service.Env.{Environment}
use checkin_service.Models.{Db, DateTime, QrToken, Registration, registration_conflict}
use checkin_service.Models.Store.{add_row_rows}
use checkin_service.Hashing.{Crypto, Keys}
use checkin_service.Auth.Roles.{Actor}
use checkin_service.Geo.Distance.{FloatOps}
use checkin_service.Geo.Signals.{Knobs}
use checkin_service.Events.Schema.{validate_create, geofence_max_radius}
use checkin_service.Events.Update.{validate_update}
use checkin_service.Events.Cases.{create_cases, update_cases, delete_cases}
use checkin_service.Registrations.Defs.{
  is_cancelled, set_cancelled, new_registration, register_for_event, cancel_registration,
}
use checkin_service.Registrations.Cases.{enroll_cases, register_cases, cancel_cases}
use checkin_service.Checkins.Limiter.{Limiter}
use checkin_service.Checkins.Submit
use checkin_service.Checkins.Cases.{redeem_cases, record_cases, submit_cases}
use checkin_service.Qr.Service.{consume_token}
use checkin_service.System.{
  Run, finished, creates, updates, deletes, registers, cancels, checks_in, mints, invites, answers,
  purges, mirrors, posted, amended, run,
}
use checkin_service.System.Changes.{respond_cases, purged_cases}
use checkin_service.System.Inserts.{mint_cases, send_cases}
use checkin_service.System.Lives.{
  rest, onward, attending, IsLater, IsGrown, IsGrown-refl, IsGrown-append, IsGrown-update,
  cancelled-IsLater, IsLater-refl,
}

register-IsGrown :
    (base : List Registration) (race : Db → Db) (actor : Actor) (event_id : ℕ)
    (attendee key : Option Text) (now : DateTime) (db : Db)
    → IsGrown base (race db).registrations
    → IsGrown base db.registrations
    → IsGrown base (register_for_event race actor event_id attendee key now db).1.registrations
register-IsGrown base race actor event_id attendee key now db later g =
    register_cases (λ h. IsGrown base h.1.registrations) race actor event_id attendee key now db
      (λ _. g) (λ _ _ _ _ _. g)
      (λ event target _ _.
        enroll_cases (λ h. IsGrown base h.1.registrations) db event_id target key now (race db)
          (λ _. later)
          (λ e rows _ h.
            let row = new_registration db (race db) e event_id target key now in
            subst (IsGrown base)
              (sym (add_row_rows registration_conflict row (race db).registrations rows h).1)
              (IsGrown-append base (race db).registrations row later))
          (λ _ _. later))

cancel-IsGrown :
    (base : List Registration) (actor : Actor) (event_id : ℕ) (target : Text) (now : DateTime)
    (db : Db)
    → IsGrown base db.registrations
    → IsGrown base (cancel_registration actor event_id target now db).1.registrations
cancel-IsGrown base actor event_id target now db g =
    cancel_cases (λ h. IsGrown base h.1.registrations) actor event_id target now db (λ _. g)
      λ event r _ _.
        IsGrown-update (λ (x : Registration). x.id == r.id) (set_cancelled now) base
          db.registrations (cancelled-IsLater now) g

consume_registrations :
    (t : QrToken) (u : Option Text) (now : DateTime) (db : Db)
    → (consume_token t u now db).registrations ≡ db.registrations
unfolding consume_token
consume_registrations t u now db = elim (Bool-cases (not t.single_use)) [
  | inl e ↦ rw (e, consume_token) refl
  | inr e ↦ elim (Bool-cases (is_some t.used_at)) [
    | inl f ↦ rw (e, consume_token) (rw f refl)
    | inr f ↦ rw (e, consume_token) (rw f refl)
  ]
]

module _ (crypto : Crypto) (keys : Keys) (fl : FloatOps) (knobs : Knobs) where
  attended-IsLater :
      (now : DateTime) (r : Registration)
      → IsLater r (Submit.set_attended crypto keys fl knobs now r)
  unfolding Submit.set_attended
  attended-IsLater now r =
      elim (Bool-cases (is_cancelled r.status || Submit.is_attended r.status)) [
        | inl e ↦ rw (e, Submit.set_attended) (IsLater-refl r)
        | inr e ↦
            rw (e, Submit.set_attended)
              (record {
                same_id = refl;
                same_event = refl;
                same_attendee = refl;
                life = onward (attending (ground (arith, e))) rest;
              })
      ]

  submit-IsGrown :
      (base : List Registration) (race : Db → Db) (actor : Actor) (event_id : ℕ)
      (q : Submit.Request) (ip : Option Text) (tick : ℕ) (now : DateTime) (limiter : Limiter)
      (db : Db)
      → IsGrown base (race db).registrations
      → IsGrown base db.registrations
      → IsGrown base
          (Submit.submit_checkin crypto keys fl knobs race actor event_id q ip tick now limiter
            db).2.registrations
  unfolding Submit.mark_attended
  submit-IsGrown base race actor event_id q ip tick now limiter db later g =
      submit_cases crypto keys fl knobs (λ out. IsGrown base out.1.registrations) race actor
        event_id q ip tick now limiter db (λ _ _. g)
        λ target plan _ _ _.
          record_cases crypto keys fl knobs (λ out. IsGrown base out.1.registrations) event_id q
            plan now (race db) (λ _. later)
            λ rows h.
              let marked =
                IsGrown-update (λ (x : Registration). x.id == plan.registration.id)
                  (Submit.set_attended crypto keys fl knobs now) base (race db).registrations
                  (attended-IsLater now) later in
              redeem_cases crypto keys fl knobs (λ d. IsGrown base d.registrations)
                plan.evidence.qr_row plan.target now _ marked
                (λ row. rw (consume_registrations row (some plan.target) now _) marked)

  module _ (env : Environment) where
    run-keeps :
        (base : List Registration) (r : Run) (db : Db)
        → IsGrown base db.registrations
        → IsGrown base (run crypto keys fl knobs env r db).registrations
    unfolding run posted amended
    run-keeps base finished db g = g
    run-keeps base (creates during actor body key now next) db g =
        run-keeps base next
          (posted crypto keys fl knobs env (run crypto keys fl knobs env during) actor body key now
            db)
          (elim (Result-cases (validate_create fl (geofence_max_radius env) body)) [
            | inl (e, h) ↦ rw (h, posted) g
            | inr (p, h) ↦
                let later = run-keeps base during db g in
                rw (h, posted)
                  (create_cases (λ o. IsGrown base o.1.registrations)
                    (run crypto keys fl knobs env during) actor p key now db (λ _. g) (λ _. g)
                    (λ _. later) (λ _. later) (λ _ _ _ _ _. later))
          ])
    run-keeps base (updates is_clean actor event_id body now next) db g =
        run-keeps base next (amended crypto keys fl knobs env is_clean actor event_id body now db)
          (elim (Result-cases (validate_update fl (geofence_max_radius env) body)) [
            | inl (e, h) ↦ rw (h, amended) g
            | inr (p, h) ↦
                rw (h, amended)
                  (update_cases (λ o. IsGrown base o.1.registrations) is_clean actor event_id p now
                    db (λ _. g) (λ _ _ _ _. g))
          ])
    run-keeps base (deletes actor event_id now next) db g =
        run-keeps base next _ (
          delete_cases (λ o. IsGrown base o.1.registrations) actor event_id now db (λ _. g)
            (λ _. g))
    run-keeps base (registers during actor event_id attendee key now next) db g =
        run-keeps base next _ (
          register-IsGrown base (run crypto keys fl knobs env during) actor event_id attendee key
            now db (run-keeps base during db g) g)
    run-keeps base (cancels actor event_id target now next) db g =
        run-keeps base next _ (cancel-IsGrown base actor event_id target now db g)
    run-keeps base (checks_in during actor event_id q ip tick now limiter next) db g =
        run-keeps base next _ (
          submit-IsGrown base (run crypto keys fl knobs env during) actor event_id q ip tick now
            limiter db (run-keeps base during db g) g)
    run-keeps base (mints actor event_id ttl single_use attendee nonce now next) db g =
        run-keeps base next _ (
          mint_cases crypto keys (λ o. IsGrown base o.1.registrations) actor event_id ttl single_use
            attendee nonce now db (λ _. g) (λ _ _ _ _ _. g))
    run-keeps base (invites during actor event_id items now next) db g = run-keeps base next _ (
        send_cases crypto keys (λ d. IsGrown base d.registrations)
          (λ n d. run crypto keys fl knobs env (during n) d)
          (λ n d h. run-keeps base (during n) d h) (λ _ _ _ _ _ h. h) actor event_id items now db g)
    run-keeps base (answers actor event_id invitation_id decision now next) db g =
        run-keeps base next _ (
          respond_cases (λ o. IsGrown base o.1.registrations) actor event_id invitation_id decision
            now db (λ _. g) (λ _ _. g))
    run-keeps base (purges days now next) db g = run-keeps base next _ (
        purged_cases crypto keys fl knobs env (λ d. IsGrown base d.registrations) days now db g
          (λ _. g))
    run-keeps base (mirrors groups members relationships next) db g = run-keeps base next _ g

    -- Whatever requests run on the service, from whatever database, with other requests committing before
    -- the inserts of creations, registrations, check-ins and invitations (the other requests run in one
    -- step each): every registration is still in the
    -- table, in its place, for the same event and attendee, and its status has moved only as the
    -- machine `Move` allows: to cancelled, or from another status than cancelled to attended.
    pub run-IsGrown :
        (r : Run) (db : Db)
        → IsGrown db.registrations (run crypto keys fl knobs env r db).registrations
    run-IsGrown r db = run-keeps db.registrations r db (IsGrown-refl db.registrations)
