-- ===== src/Registrations/Capacity.antt =====
-- The capacity check of POST /events/{id}/register.
use mathlib.Core.Path.{subst}
use checkin_service.Base.{
  sym, ℕ, ◌+◌, ◌≤◌, ◌≡◌, Option, some, List, [], ◌∷◌, arith, first, count_where, count_where-append,
  ◌==◌, ==_iff, if◌then◌else◌, Bool-cases, inl, inr,
}
use checkin_service.Text.{Text}
use checkin_service.Models.{Db, DateTime, Event, Registration, registration_conflict}
use checkin_service.Models.Store.{add_row, add_row_rows}
use checkin_service.Auth.Roles.{Actor}
use checkin_service.Registrations.Defs.{
  is_seated, holds_seat, active_count, seat, new_registration, register_for_event,
}
use checkin_service.Registrations.Cases.{inserted, enroll_cases, register_cases}

-- No event with a capacity has more registered and attended rows than that.
pub record IsWithinCapacity (db : Db) : Type 0 where
  pub at_event :
      (k : ℕ) (e : Event) (capacity : ℕ)
      → first (λ (e : Event). e.id == k) db.events ≡ some e
      → e.max_capacity ≡ some capacity
      → active_count db k ≤ capacity

-- A seat is given out only while one is free.
seat_fits :
    (db : Db) (event : Event) (event_id capacity : ℕ)
    → event.max_capacity ≡ some capacity
    → active_count db event_id ≤ capacity
    → active_count db event_id + (if is_seated (seat db event event_id).0 then 1 else 0) ≤ capacity
unfolding seat is_seated
seat_fits db event event_id capacity limited within = ground arith

new_seat :
    (seen db : Db) (event : Event) (event_id k : ℕ) (target : Text) (key : Option Text)
    (now : DateTime) (e : Event) (capacity : ℕ)
    → first (λ (e : Event). e.id == event_id) seen.events ≡ some event
    → first (λ (e : Event). e.id == k) seen.events ≡ some e
    → e.max_capacity ≡ some capacity
    → active_count seen k ≤ capacity
    → active_count seen k
        + (if holds_seat k (new_registration seen db event event_id target key now) then 1 else 0)
      ≤ capacity
unfolding holds_seat
new_seat seen db event event_id k target key now e capacity found found' limited within =
    elim (Bool-cases (event_id == k)) [
      | inl same ↦
          let eq : event_id ≡ k = (==_iff event_id k).0 same in
          let found_k : first (λ (e : Event). e.id == k) seen.events ≡ some event =
            subst (λ j. first (λ (e : Event). e.id == j) seen.events ≡ some event) eq found in
          let e_eq : e ≡ event = cc (found_k, found') in
          rw same (
            subst
              (λ j.
                active_count seen k + (if is_seated (seat seen event j).0 then 1 else 0) ≤ capacity)
              (sym eq)
              (seat_fits seen event k capacity
                (subst (λ x. x.max_capacity ≡ some capacity) e_eq limited) within))
      | inr other ↦ ground arith
    ]

-- What commits between the first read of a registration and its insert changes no event and frees
-- seats at most.
pub record IsQuiet (seen db : Db) : Type 0 where
  pub same_events : db.events ≡ seen.events
  pub no_more : (k : ℕ) → active_count db k ≤ active_count seen k

quiet-IsWithinCapacity :
    (seen db : Db) → IsQuiet seen db → IsWithinCapacity seen → IsWithinCapacity db
quiet-IsWithinCapacity seen db q w = record {
  at_event = λ k e capacity found limited.
      let found' : first (λ (e : Event). e.id == k) seen.events ≡ some e =
        subst (λ es. first (λ (e : Event). e.id == k) es ≡ some e) q.same_events found in
      omega (arith, q.no_more k, w.at_event k e capacity found' limited);
}

inserted-IsWithinCapacity :
    (seen db : Db) (event : Event) (event_id : ℕ) (target : Text) (key : Option Text)
    (now : DateTime) (rows : List Registration)
    → first (λ (e : Event). e.id == event_id) seen.events ≡ some event
    → add_row registration_conflict
        (new_registration seen db event event_id target key now)
        db.registrations
      ≡ some rows
    → IsQuiet seen db
    → IsWithinCapacity seen
    → IsWithinCapacity (inserted db rows)
unfolding active_count count_where
inserted-IsWithinCapacity seen db event event_id target key now rows found h q w = record {
  at_event = λ k e capacity found' limited.
      let r = new_registration seen db event event_id target key now in
      rw ((add_row_rows registration_conflict r db.registrations rows h).1) (
        rw (count_where-append (holds_seat k) db.registrations (r ∷ []))
          (new_seat_row k e capacity found' limited));
}
  where
    new_seat_row :
        (k : ℕ) (e : Event) (capacity : ℕ)
        → first (λ (e : Event). e.id == k) db.events ≡ some e
        → e.max_capacity ≡ some capacity
        → count_where (holds_seat k) db.registrations
            + count_where
                (holds_seat k)
                (new_registration seen db event event_id target key now ∷ [])
          ≤ capacity
    new_seat_row k e capacity found' limited =
        let found_seen : first (λ (e : Event). e.id == k) seen.events ≡ some e =
          subst (λ es. first (λ (e : Event). e.id == k) es ≡ some e) q.same_events found' in
        omega (
          arith,
          q.no_more k,
          new_seat seen db event event_id k target key now e capacity found found_seen limited
              (w.at_event k e capacity found_seen limited),
        )

-- From a database in which no event has more registered and attended rows than its capacity,
-- registering keeps it so, when what other requests commit between its first read and its insert
-- changes no event and adds no registered or attended row to any event. (The lock is no help there:
-- the count is of the snapshot.)
pub register-IsWithinCapacity :
    (race : Db → Db) (actor : Actor) (event_id : ℕ) (attendee key : Option Text) (now : DateTime)
    (db : Db)
    → IsQuiet db (race db)
    → IsWithinCapacity db
    → IsWithinCapacity (register_for_event race actor event_id attendee key now db).1
register-IsWithinCapacity race actor event_id attendee key now db q w =
    register_cases (λ h. IsWithinCapacity h.1) race actor event_id attendee key now db (λ _. w)
      (λ _ _ _ _ _. w)
      λ event target _ _.
        enroll_cases (λ h. IsWithinCapacity h.1) db event_id target key now (race db)
          (λ _. quiet-IsWithinCapacity db (race db) q w)
          (λ event rows found h.
            inserted-IsWithinCapacity db (race db) event event_id target key now rows found h q w)
          (λ _ _. quiet-IsWithinCapacity db (race db) q w)
