-- ===== src/Registrations/Cancelled.antt =====
-- What cancel_registration of src/routers/registrations.py does.
use checkin_service.Base.{
  ℕ, ◌≡◌, ◌≢◌, refl, true, false, Option-cases, Result-cases, some, List, [], ◌∷◌, inl, inr, ◌⊎◌,
  first, first-In, first-true, In, update_where, ◌==◌, arith, ok, err, HttpError,
}
use checkin_service.Text.{Text, is_falsy}
use checkin_service.Text.Equality.{text_eq→eq}
use checkin_service.Models.{Db, DateTime, Event, Registration, RegistrationStatus}
use checkin_service.Auth.Roles.{Actor, is_admin, is_bypass}
use checkin_service.Auth.Gates.{is_user, assert_self_or_admin}
use checkin_service.Registrations.Gate.{resolve_event_or_404}
use checkin_service.Registrations.Defs.{
  by_attendee, is_cancelled, set_cancelled, cancel_registration,
}
use checkin_service.Registrations.Admission.{school_filter, resolve_event_row, self_or_admin}

-- A row after its cancellation: it is cancelled, at this time if it was not before, and otherwise as it
-- was.
abbrev pub IsCancelled : DateTime → Registration → Registration → Type 0
IsCancelled now x y =
    ((x.status ≡ RegistrationStatus.cancelled) × (y ≡ x))
    ⊎ ((x.status ≢ RegistrationStatus.cancelled)
        × (y ≡ record x { status = RegistrationStatus.cancelled; updated_at = now }))

-- The table after it, row by row: a row of another id is as it was.
abbrev pub AreCancelled : ℕ → DateTime → List Registration → List Registration → Type 0
AreCancelled k now [] [] = Unit
AreCancelled k now [] (y ∷ ys) = true ≡ false
AreCancelled k now (x ∷ xs) [] = true ≡ false
AreCancelled k now (x ∷ xs) (y ∷ ys) =
    (x.id ≢ k → y ≡ x) × (x.id ≡ k → IsCancelled now x y) × AreCancelled k now xs ys

-- A cancellation that went through: of the caller's own registration or by an administrator, for an
-- event of the path (of the administrator's school, where there is one), and of the attendee's row
-- alone.
pub record IsCancellation (actor : Actor) (event_id : ℕ) (target : Text) (now : DateTime)
    (before after : Db) (k : ℕ) : Type 0 where
  pub event : Event
  pub is_row : In event before.events
  pub is_asked : event.id ≡ event_id
  pub is_self_or_admin : (is_bypass actor ≡ true) ⊎ (is_user actor target ≡ true)
  pub in_school :
      is_admin actor ≡ true
      → (is_falsy actor.school_id ≡ true) ⊎ (actor.school_id ≡ some event.school_id)
  pub held : Registration
  pub stood : In held before.registrations
  pub of_event : held.event_id ≡ event_id
  pub of_attendee : held.attendee_user_id ≡ target
  pub answered : k ≡ held.id
  pub rows : AreCancelled k now before.registrations after.registrations
  pub rest : after ≡ record before { registrations = after.registrations }

set_cancelled-IsCancelled :
    (now : DateTime) (x : Registration) → IsCancelled now x (set_cancelled now x)
unfolding set_cancelled is_cancelled
set_cancelled-IsCancelled now x = ground arith

cancelled_rows :
    (k : ℕ) (now : DateTime) (xs : List Registration)
    → AreCancelled k now xs (update_where (λ (x : Registration). x.id == k) (set_cancelled now) xs)
unfolding update_where
cancelled_rows k now [] = tt
cancelled_rows k now (x ∷ xs) = (
  λ ne. ground (arith, ne),
  λ e. let hit : (x.id == k) ≡ true = ground (arith, e) in rw hit (set_cancelled-IsCancelled now x),
  cancelled_rows k now xs,
)

-- A cancellation is an error that changes nothing, or it is of the caller's own registration or by an
-- administrator, of an event with the id of the path (and of the administrator's school, where the
-- administrator has one); it answers with the id of the attendee's row for that event, exactly that
-- row is cancelled, and nothing else in the database changes.
pub cancel_registration-IsCancellation :
    (actor : Actor) (event_id : ℕ) (target : Text) (now : DateTime) (db : Db)
    → let out = cancel_registration actor event_id target now db in
      ((e : HttpError) × (out ≡ (err e, db)))
      ⊎ ((k : ℕ) × (out.0 ≡ ok k) × IsCancellation actor event_id target now db out.1 k)
unfolding cancel_registration by_attendee
cancel_registration-IsCancellation actor event_id target now db =
    elim (Result-cases (assert_self_or_admin actor target)) [
      | inl (e, h) ↦ rw (h, cancel_registration) (inl (e, refl))
      | inr (u, h) ↦ elim (Result-cases (resolve_event_or_404 db event_id (school_filter actor))) [
        | inl (e, g) ↦ rw (h, cancel_registration) (rw g (inl (e, refl)))
        | inr (event, g) ↦
            elim (Option-cases (first (by_attendee event.id target) db.registrations)) [
              | inl k ↦ rw (h, cancel_registration) (rw g (rw k (inl (_, refl))))
              | inr (r, k) ↦
                  let (row, asked, school) =
                    resolve_event_row db event_id (school_filter actor) event g in
                  let hit = first-true (by_attendee event.id target) db.registrations r k in
                  rw (h, cancel_registration)
                    (rw g (
                      rw k (
                        inr (
                          r.id,
                          refl,
                          record {
                            event = event;
                            is_row = row;
                            is_asked = asked;
                            is_self_or_admin = self_or_admin actor target h;
                            in_school = λ a.
                                let q : school_filter actor ≡ actor.school_id = rw a in
                                rw (← q) school;
                            held = r;
                            stood = first-In (by_attendee event.id target) db.registrations r k;
                            of_event = ground (arith, hit, asked);
                            of_attendee =
                                text_eq→eq r.attendee_user_id target (ground (arith, hit));
                            answered = refl;
                            rows = cancelled_rows r.id now db.registrations;
                            rest = refl;
                          },
                        ))))
            ]
      ]
    ]
