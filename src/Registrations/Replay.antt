-- ===== src/Registrations/Replay.antt =====
-- A repeated POST /events/{id}/register: the same row comes back and nothing is written.
use mathlib.Core.Path.{subst₂}
use checkin_service.Base.{
  ap, ℕ, ◌≡◌, refl, true, false, Option, none, some, List, [], ◌∷◌, ◌++◌, arith, first, any,
  first-In, first-true, first_finds, In-any, any_mono, first-none, first-append, ◌==◌, ==_refl, ok,
  Bool-cases, Option-cases, inl, inr, ◌⊎◌, ◌∙◌,
}
use checkin_service.Text.{Text, is_empty}
use checkin_service.Text.Equality.{text_eq_refl, text_eq_iff}
use checkin_service.Models.{
  Db, DateTime, Event, Registration, registration_conflict, column_eq, school_admin_group,
  team_lead_cohort, Visibility, public, school_only, unlisted, invite_only, group_only,
}
use checkin_service.Models.Store.{add_row, add_row_rows}
use checkin_service.Auth.Roles.{Actor}
use checkin_service.Registrations.Gate.{
  register_gate, visibility_gate, group_gate, is_invited, is_member, is_in_cohort,
  resolve_event_or_404,
}
use checkin_service.Registrations.Defs.{
  Handled, new_registration, by_attendee, by_key, enroll, replayed, register_for_event,
}
use checkin_service.Registrations.Cases.{inserted, enroll_cases, register_cases}
use checkin_service.Registrations.Admission.{register_gate-IsAdmitted}

-- A registration of the attendee for the event collides with a new one.
held_conflict :
    (db : Db) (event : Event) (event_id : ℕ) (target : Text) (key : Option Text) (now : DateTime)
    (r : Registration)
    → by_attendee event_id target r ≡ true
    → registration_conflict (new_registration db db event event_id target key now) r ≡ true
unfolding registration_conflict by_attendee
held_conflict db event event_id target key now r h =
    ground (arith, text_eq_iff r.attendee_user_id target, text_eq_refl target)

enroll_existing :
    (event_id : ℕ) (target : Text) (key : Option Text) (now : DateTime) (db : Db) (event : Event)
    (r : Registration)
    → first (λ (e : Event). e.id == event_id) db.events ≡ some event
    → first (by_attendee event_id target) db.registrations ≡ some r
    → enroll db event_id target key now db ≡ (ok r, db)
unfolding enroll add_row
enroll_existing event_id target key now db event r found held =
    let new = new_registration db db event event_id target key now in
    let clash : any (registration_conflict new) db.registrations ≡ true =
      In-any (registration_conflict new) db.registrations r
        (first-In (by_attendee event_id target) db.registrations r held)
        (held_conflict db event event_id target key now r
          (first-true (by_attendee event_id target) db.registrations r held)) in
    let there : any (λ (e : Event). e.id == event_id) db.events ≡ true =
      In-any (λ (e : Event). e.id == event_id) db.events event
        (first-In (λ (e : Event). e.id == event_id) db.events event found)
        (first-true (λ (e : Event). e.id == event_id) db.events event found) in
    rw (there, enroll) (rw found (rw clash (rw held)))

-- An admitted attendee who holds a registration for the event, of whatever status, gets that row
-- back, and nothing is written, when the key replays no row and no other request commits meanwhile.
pub register_existing :
    (actor : Actor) (event_id : ℕ) (attendee key : Option Text) (now : DateTime) (db : Db)
    (event : Event) (target : Text) (r : Registration)
    → register_gate db actor event_id attendee key ≡ ok (event, target)
    → replayed db event_id key ≡ none
    → first (by_attendee event_id target) db.registrations ≡ some r
    → register_for_event (λ d. d) actor event_id attendee key now db ≡ (ok r, db)
unfolding register_for_event
register_existing actor event_id attendee key now db event target r gate fresh held =
    let a = register_gate-IsAdmitted db actor event_id attendee key event target gate in
    let (e, found) =
      first_finds (λ (e : Event). e.id == event_id) db.events event a.is_row
        (rw a.is_asked (==_refl event_id)) in
    rw (gate, register_for_event)
      (rw fresh (enroll_existing event_id target key now db e r found held))

-- The gate reads nothing that a registration writes.
is_member-inserted :
    (db : Db) (rows : List Registration) (g : Option ℕ) (target : Text)
    → is_member (inserted db rows) g target ≡ is_member db g target
unfolding is_member
is_member-inserted db rows none target = refl
is_member-inserted db rows (some g) target = refl

group_gate-inserted :
    (db : Db) (rows : List Registration) (event : Event) (target : Text)
    → group_gate (inserted db rows) event target ≡ group_gate db event target
unfolding group_gate is_in_cohort
group_gate-inserted db rows event target = elim (Option-cases event.group_kind) [
  | inl k ↦ rw (k, group_gate)
  | inr (school_admin_group, k) ↦ rw (k, group_gate) (rw is_member-inserted)
  | inr (team_lead_cohort, k) ↦ rw (k, group_gate)
]

visibility_gate-inserted :
    (db : Db) (rows : List Registration) (actor : Actor) (event : Event) (target : Text)
    (v : Visibility)
    → visibility_gate (inserted db rows) actor event target v
      ≡ visibility_gate db actor event target v
unfolding visibility_gate is_invited
visibility_gate-inserted db rows actor event target public = refl
visibility_gate-inserted db rows actor event target unlisted = refl
visibility_gate-inserted db rows actor event target school_only = refl
visibility_gate-inserted db rows actor event target invite_only = refl
visibility_gate-inserted db rows actor event target group_only = simp group_gate-inserted

register_gate-inserted :
    (db : Db) (rows : List Registration) (actor : Actor) (event_id : ℕ) (attendee key : Option Text)
    → register_gate (inserted db rows) actor event_id attendee key
      ≡ register_gate db actor event_id attendee key
unfolding register_gate resolve_event_or_404
register_gate-inserted db rows actor event_id attendee key = simp visibility_gate-inserted

finds_itself :
    (event_id : ℕ) (key : Text) (r : Registration)
    → r.event_id ≡ event_id
    → r.idempotency_key ≡ some key
    → by_key event_id key r ≡ true
unfolding by_key column_eq
finds_itself event_id key r e k = rw e (rw k (ground (arith, text_eq_refl key)))

attends_itself :
    (event_id : ℕ) (target : Text) (r : Registration)
    → r.event_id ≡ event_id
    → r.attendee_user_id ≡ target
    → by_attendee event_id target r ≡ true
unfolding by_attendee
attends_itself event_id target r e k = rw e (rw k (ground (arith, text_eq_refl target)))

first_new :
    (event_id : ℕ) (key : Text) (r : Registration)
    → by_key event_id key r ≡ true
    → first (by_key event_id key) (r ∷ []) ≡ some r
unfolding first
first_new event_id key r h = rw h

-- A row that an insert has just added is the one that its key finds.
replayed-inserted :
    (db : Db) (event : Event) (event_id : ℕ) (target : Text) (key : Option Text) (now : DateTime)
    (rows : List Registration)
    → rows ≡ db.registrations ++ new_registration db db event event_id target key now ∷ []
    → replayed db event_id key ≡ none
    → (replayed (inserted db rows) event_id key ≡ none)
      ⊎ (replayed (inserted db rows) event_id key
          ≡ some (new_registration db db event event_id target key now))
unfolding replayed
replayed-inserted db event event_id target none now rows grown fresh = inl refl
replayed-inserted db event event_id target (some key) now rows grown fresh =
    elim (Bool-cases (is_empty key)) [
      | inl e ↦ inl (rw e)
      | inr e ↦
          let new = new_registration db db event event_id target (some key) now in
          let old : first (by_key event_id key) db.registrations ≡ none = rw e at fresh in
          inr (
            rw e (
              rw grown (
                first-append (by_key event_id key) db.registrations (new ∷ [])
                  (first-none (by_key event_id key) db.registrations old)
                ∙ first_new event_id key new (finds_itself event_id key new refl refl))))
    ]

-- After an insert the attendee's query finds the new row.
attendee-inserted :
    (db : Db) (event : Event) (event_id : ℕ) (target : Text) (key : Option Text) (now : DateTime)
    (rows : List Registration)
    → add_row registration_conflict
        (new_registration db db event event_id target key now)
        db.registrations
      ≡ some rows
    → first (by_attendee event_id target) rows
      ≡ some (new_registration db db event event_id target key now)
unfolding first
attendee-inserted db event event_id target key now rows added =
    let new = new_registration db db event event_id target key now in
    let (no_clash, grown) = add_row_rows registration_conflict new db.registrations rows added in
    let none_held : any (by_attendee event_id target) db.registrations ≡ false =
      any_mono (by_attendee event_id target) (registration_conflict new) db.registrations
        (λ x. held_conflict db event event_id target key now x) no_clash in
    rw grown (
      first-append (by_attendee event_id target) db.registrations (new ∷ []) none_held
      ∙ rw (attends_itself event_id target new refl refl))

-- The second request after one that replayed a key.
again_after_replay :
    (actor : Actor) (event_id : ℕ) (attendee key : Option Text) (now : DateTime) (db : Db)
    (event : Event) (target : Text) (r : Registration)
    → register_gate db actor event_id attendee key ≡ ok (event, target)
    → replayed db event_id key ≡ some r
    → register_for_event (λ d. d) actor event_id attendee key now db ≡ (ok r, db)
unfolding register_for_event
again_after_replay actor event_id attendee key now db event target r gate old =
    rw (gate, register_for_event) (rw old)

-- The second request after one that inserted a row.
again_after_insert :
    (actor : Actor) (event_id : ℕ) (attendee key : Option Text) (now later : DateTime) (db : Db)
    (event found_event : Event) (target : Text) (rows : List Registration)
    → register_gate db actor event_id attendee key ≡ ok (event, target)
    → replayed db event_id key ≡ none
    → add_row registration_conflict
        (new_registration db db found_event event_id target key now)
        db.registrations
      ≡ some rows
    → register_for_event (λ d. d) actor event_id attendee key later (inserted db rows)
      ≡ (ok (new_registration db db found_event event_id target key now), inserted db rows)
again_after_insert actor event_id attendee key now later db event found_event target rows gate fresh
      added =
    let new = new_registration db db found_event event_id target key now in
    let (_, grown) = add_row_rows registration_conflict new db.registrations rows added in
    let gate' = register_gate-inserted db rows actor event_id attendee key ∙ gate in
    elim (replayed-inserted db found_event event_id target key now rows grown fresh) [
      | inl e ↦
          register_existing actor event_id attendee key later (inserted db rows) event target new
            gate' e (attendee-inserted db found_event event_id target key now rows added)
      | inr e ↦
          again_after_replay actor event_id attendee key later (inserted db rows) event target new
            gate' e
    ]

-- The same outcome, in the words of the first request's.
same_outcome :
    (again : Db → Handled Registration) (x r : Registration) (d db' : Db)
    → ◌≡◌ {A = Handled Registration} (ok x, d) (ok r, db')
    → again d ≡ (ok x, d)
    → again db' ≡ (ok r, db')
same_outcome again x r d db' h e =
    let same_db : d ≡ db' = ap (λ (p : Handled Registration). p.1) h in
    let same_row : ok x ≡ ok r = ap (λ (p : Handled Registration). p.0) h in
    subst₂ (λ y z. again z ≡ (y, z)) same_row same_db e

-- Where no other request commits between, the second of two equal requests returns the row of the
-- first, and writes nothing: with an
-- Idempotency-Key or without, whatever time has passed.
pub register_twice :
    (actor : Actor) (event_id : ℕ) (attendee key : Option Text) (now later : DateTime) (db db' : Db)
    (r : Registration)
    → register_for_event (λ d. d) actor event_id attendee key now db ≡ (ok r, db')
    → register_for_event (λ d. d) actor event_id attendee key later db' ≡ (ok r, db')
register_twice actor event_id attendee key now later db db' r =
    register_cases
      (λ h.
        h ≡ (ok r, db')
        → register_for_event (λ d. d) actor event_id attendee key later db' ≡ (ok r, db'))
      (λ d. d) actor event_id attendee key now db
      (λ e h. absurd (cc (ap (λ (p : Handled Registration). p.0) h)))
      (λ event target existing gate old h.
        same_outcome (register_for_event (λ d. d) actor event_id attendee key later) existing r db
          db' h
          (again_after_replay actor event_id attendee key later db event target existing gate old))
      (λ event target gate fresh.
        enroll_cases
          (λ h.
            h ≡ (ok r, db')
            → register_for_event (λ d. d) actor event_id attendee key later db' ≡ (ok r, db'))
          db event_id target key now db
          (λ e h. absurd (cc (ap (λ (p : Handled Registration). p.0) h)))
          (λ found_event rows found added h.
            same_outcome (register_for_event (λ d. d) actor event_id attendee key later)
              (new_registration db db found_event event_id target key now) r (inserted db rows) db'
              h
              (again_after_insert actor event_id attendee key now later db event found_event target
                rows gate fresh added))
          (λ existing held h.
            same_outcome (register_for_event (λ d. d) actor event_id attendee key later) existing r
              db db' h
              (register_existing actor event_id attendee key later db event target existing gate
                fresh held)))
