-- ===== src/System/Errors.antt =====
-- What an error leaves of the database, for each route that writes. Here no other request commits
-- inside a request.
use checkin_service.Base.{
  ℕ, ◌≡◌, refl, Bool, Option, none, some, Option-cases, List, [], ◌∷◌, inl, inr, Result, HttpError,
  Result-cases, ok, err,
}
use checkin_service.Text.{Text, txt, or_else}
use checkin_service.Models.{Db, DateTime, Event}
use checkin_service.Hashing.{Crypto, Keys}
use checkin_service.Auth.Roles.{Actor}
use checkin_service.Geo.Distance.{FloatOps}
use checkin_service.Geo.Signals.{Knobs}
use checkin_service.Events.{EventCreate, create_event, delete_event}
use checkin_service.Events.Update.{EventUpdate, update_event}
use checkin_service.Events.Cases.{create_cases, update_cases, delete_cases}
use checkin_service.Registrations.Defs.{register_for_event, cancel_registration}
use checkin_service.Registrations.Cases.{enroll_cases, register_cases, cancel_cases}
use checkin_service.Checkins.Limiter.{Limiter}
use checkin_service.Checkins.Submit
use checkin_service.Checkins.Submit.{Request}
use checkin_service.Checkins.Cases.{record_cases, submit_cases}
use checkin_service.Qr.Service.{mint_qr_token}
use checkin_service.Invitations.{
  Invitee, Decision, owner_gate, others, send_all, send_invitations, respond_to_invitation,
}
use checkin_service.System.Changes.{respond_cases}
use checkin_service.System.Inserts.{mint_cases}

-- A request that may write.
pub data Write : Type 0 where
  create : Actor → EventCreate → Option Text → DateTime → Write
  update : (Event → Event → Bool) → Actor → ℕ → EventUpdate → DateTime → Write
  delete : Actor → ℕ → DateTime → Write
  register : Actor → ℕ → Option Text → Option Text → DateTime → Write
  cancel : Actor → ℕ → Text → DateTime → Write
  check_in : Actor → ℕ → Request → Option Text → ℕ → DateTime → Limiter → Write
  mint : Actor → ℕ → ℕ → Bool → Option Text → Text → ℕ → Write
  invite : Actor → ℕ → List Invitee → DateTime → Write
  answer : Actor → ℕ → ℕ → Decision → DateTime → Write

-- the error of an answer, and the database after it
unfoldable pub outcome : {A : Type 0} → Result A × Db → Option HttpError × Db
outcome (ok a, db) = (none, db)
outcome (err e, db) = (some e, db)

module _ (crypto : Crypto) (keys : Keys) (fl : FloatOps) (knobs : Knobs) where
  unfoldable pub serve : Write → Db → Option HttpError × Db
  unfolding outcome
  serve (create actor p key now) db = outcome (create_event (λ d. d) actor p key now db)
  serve (update is_clean actor event_id p now) db =
      outcome (update_event is_clean actor event_id p now db)
  serve (delete actor event_id now) db = outcome (delete_event actor event_id now db)
  serve (register actor event_id attendee key now) db =
      outcome (register_for_event (λ d. d) actor event_id attendee key now db)
  serve (cancel actor event_id target now) db =
      outcome (cancel_registration actor event_id target now db)
  serve (check_in actor event_id q ip tick now limiter) db =
      let out =
        Submit.submit_checkin crypto keys fl knobs (λ d. d) actor event_id q ip tick now limiter
          db in
      outcome (out.0, out.2)
  serve (mint actor event_id ttl single_use attendee nonce now) db =
      outcome (mint_qr_token crypto keys actor event_id ttl single_use attendee nonce now db)
  serve (invite actor event_id items now) db =
      outcome (send_invitations crypto keys (λ n d. d) actor event_id items now db)
  serve (answer actor event_id invitation_id decision now) db =
      outcome (respond_to_invitation actor event_id invitation_id decision now db)

-- An error, if it is one, comes with the database as it was.
record IsRolledBack {A : Type 0} (db : Db) (e : HttpError) (o : Result A × Db) : Type 0 where
  back : (outcome o).0 ≡ some e → (outcome o).1 ≡ db

failed_back :
    {A : Type 0} (db : Db) (e : HttpError) (raised : HttpError)
    → IsRolledBack {A = A} db e (err raised, db)
unfolding outcome
failed_back db e raised = record { back = λ h. refl }

done_back : {A : Type 0} (db d : Db) (e : HttpError) (a : A) → IsRolledBack {A = A} db e (ok a, d)
unfolding outcome
done_back db d e a = record { back = λ h. absurd (cc h) }

others_same : (items : List Invitee) (db : Db) → others (λ n d. d) items db ≡ db
unfolding others
others_same [] db = refl
others_same (item ∷ items) db = others_same items db

module _ (crypto : Crypto) (keys : Keys) (fl : FloatOps) (knobs : Knobs) where
  send_back :
      (actor : Actor) (event_id : ℕ) (items : List Invitee) (now : DateTime) (db : Db)
      (e : HttpError)
      → IsRolledBack db e (send_invitations crypto keys (λ n d. d) actor event_id items now db)
  unfolding send_invitations
  send_back actor event_id items now db e = elim (Result-cases (owner_gate db event_id actor)) [
    | inl (x, h) ↦ rw (h, send_invitations) (failed_back db e x)
    | inr (event, h) ↦
        elim (Option-cases (
          send_all crypto keys (λ n d. d) event_id event (or_else actor.user_id (txt "service"))
            items now (record { view = db.invitations; store = db }))) [
              | inl g ↦
                  rw (h, send_invitations) (rw g (rw (others_same items db) (failed_back db e _)))
              | inr (out, g) ↦ rw (h, send_invitations) (rw g (done_back db out.1 e out.0))
            ]
  ]

  refused_back : {A : Type 0} (db : Db) (e : HttpError) (r : Result A) → IsRolledBack db e (r, db)
  refused_back db e (ok a) = done_back db db e a
  refused_back db e (err raised) = failed_back db e raised

  -- A request that writes, of any route, which is answered with an error and inside which nothing else
  -- commits, leaves the database as it was: also where it raised after its insert collided, or in
  -- the middle of a batch.
  pub serve_error :
      (w : Write) (db : Db) (e : HttpError)
      → (serve crypto keys fl knobs w db).0 ≡ some e
      → (serve crypto keys fl knobs w db).1 ≡ db
  unfolding serve
  serve_error (create actor p key now) db e h =
      (create_cases (IsRolledBack db e) (λ d. d) actor p key now db (failed_back db e)
          (done_back db db e) (failed_back db e) (done_back db db e)
          (λ _ _ _ _ _. done_back db _ e _)).back
        h
  serve_error (update is_clean actor event_id p now) db e h =
      (update_cases (IsRolledBack db e) is_clean actor event_id p now db (failed_back db e)
          (λ _ _ _ _. done_back db _ e _)).back
        h
  serve_error (delete actor event_id now) db e h =
      (delete_cases (IsRolledBack db e) actor event_id now db (failed_back db e)
          (λ _. done_back db _ e _)).back
        h
  serve_error (register actor event_id attendee key now) db e h =
      (register_cases (IsRolledBack db e) (λ d. d) actor event_id attendee key now db
          (failed_back db e) (λ _ _ x _ _. done_back db db e x)
          (λ event target _ _.
            enroll_cases (IsRolledBack db e) db event_id target key now db (failed_back db e)
              (λ _ _ _ _. done_back db _ e _) (λ x _. done_back db db e x))).back
        h
  serve_error (cancel actor event_id target now) db e h =
      (cancel_cases (IsRolledBack db e) actor event_id target now db (failed_back db e)
          (λ _ _ _ _. done_back db _ e _)).back
        h
  serve_error (check_in actor event_id q ip tick now limiter) db e h =
      (submit_cases crypto keys fl knobs (IsRolledBack db e) (λ d. d) actor event_id q ip tick now
          limiter db (λ r _. refused_back db e r)
          λ target plan _ _ _.
            record_cases crypto keys fl knobs (IsRolledBack db e) event_id q plan now db
              (λ _. done_back db db e _) (λ _ _. done_back db _ e _)).back
        h
  serve_error (mint actor event_id ttl single_use attendee nonce now) db e h =
      (mint_cases crypto keys (IsRolledBack db e) actor event_id ttl single_use attendee nonce now
          db (failed_back db e) (λ out _ _ _ _. done_back db _ e out)).back
        h
  serve_error (invite actor event_id items now) db e h =
      (send_back actor event_id items now db e).back h
  serve_error (answer actor event_id invitation_id decision now) db e h =
      (respond_cases (IsRolledBack db e) actor event_id invitation_id decision now db
          (failed_back db e) (λ i _. done_back db _ e i)).back
        h
