-- ===== src/Registrations/Waitlist.antt =====
-- The waitlist is a queue: positions grow in the order in which the rows were added.
use mathlib.Core.Path.{subst}
use checkin_service.Base.{
  sym, ℕ, ◌+◌, ◌≤◌, ◌<◌, ◌≡◌, true, Option, none, some, List, [], ◌∷◌, ◌++◌, arith, All, All-append,
}
use checkin_service.Text.{Text}
use checkin_service.Models.{Db, DateTime, Event, Registration, registration_conflict}
use checkin_service.Models.Store.{add_row_rows}
use checkin_service.Auth.Roles.{Actor}
use checkin_service.Registrations.Defs.{
  waits, last_position, seat, new_registration, register_for_event,
}
use checkin_service.Registrations.Cases.{enroll_cases, register_cases}

abbrev pub position : Registration → ℕ
position r = elim r.waitlist_position [ none ↦ 0 | some p ↦ p ]

-- `a` is ahead of `b` on every waitlist that both are on.
abbrev pub IsAhead : Registration → Registration → Type 0
IsAhead a b = (k : ℕ) → waits k a ≡ true → waits k b ≡ true → position a < position b

abbrev pub IsQueued : List Registration → Type 0
IsQueued [] = Unit
IsQueued (r ∷ rs) = All (IsAhead r) rs × IsQueued rs

IsQueued-append :
    (rs : List Registration) (r : Registration)
    → All (λ x. IsAhead x r) rs
    → IsQueued rs
    → IsQueued (rs ++ r ∷ [])
IsQueued-append [] r before q = (tt, tt)
IsQueued-append (x ∷ rs) r before q =
    (All-append (IsAhead x) rs (r ∷ []) q.0 (before.0, tt), IsQueued-append rs r before.1 q.1)

-- Every waiting row of the event stands at or before the last position.
below_last :
    (k : ℕ) (rs : List Registration)
    → All (λ x. waits k x ≡ true → position x ≤ last_position k rs) rs
unfolding last_position
below_last k rs = go rs (λ x h. h)
  where
    go :
        (xs : List Registration)
        → ((x : ℕ) → x ≤ last_position k xs → x ≤ last_position k rs)
        → All (λ x. waits k x ≡ true → position x ≤ last_position k rs) xs
    go [] up = tt
    go (x ∷ xs) up = (λ w. up (position x) (ground arith), go xs (λ y h. up y (omega arith)))

-- A new row that waits got the position after the last one of its event in the snapshot.
new_position :
    (seen db : Db) (event : Event) (event_id k : ℕ) (target : Text) (key : Option Text)
    (now : DateTime)
    → waits k (new_registration seen db event event_id target key now) ≡ true
    → (event_id ≡ k)
      × (position (new_registration seen db event event_id target key now)
          ≡ last_position event_id seen.registrations + 1)
unfolding waits seat
new_position seen db event event_id k target key now h = ground arith

new_behind :
    (seen db : Db) (event : Event) (event_id : ℕ) (target : Text) (key : Option Text)
    (now : DateTime) (xs : List Registration)
    → last_position event_id db.registrations ≤ last_position event_id seen.registrations
    → All (λ x. waits event_id x ≡ true → position x ≤ last_position event_id db.registrations) xs
    → All (λ x. IsAhead x (new_registration seen db event event_id target key now)) xs
new_behind seen db event event_id target key now [] q h = tt
new_behind seen db event event_id target key now (x ∷ xs) q h = (
  λ k wx wr.
      let (same, p) = new_position seen db event event_id k target key now wr in
      let wx' : waits event_id x ≡ true = subst (λ j. waits j x ≡ true) (sym same) wx in
      omega (arith, h.0 wx', p, q),
  new_behind seen db event event_id target key now xs q h.1,
)

-- On the waitlist of each event, the positions of the rows increase in the order in which the
-- rows were inserted, and registering keeps that, when what other requests commit between its first
-- read and its insert keeps that too, and raises no last position. (The lock is no help there: the
-- last position is read from the snapshot.)
pub register-IsQueued :
    (race : Db → Db) (actor : Actor) (event_id : ℕ) (attendee key : Option Text) (now : DateTime)
    (db : Db)
    → IsQueued (race db).registrations
    → last_position event_id (race db).registrations ≤ last_position event_id db.registrations
    → IsQueued db.registrations
    → IsQueued (register_for_event race actor event_id attendee key now db).1.registrations
register-IsQueued race actor event_id attendee key now db later quiet q =
    register_cases (λ h. IsQueued h.1.registrations) race actor event_id attendee key now db
      (λ _. q) (λ _ _ _ _ _. q)
      λ event target _ _.
        enroll_cases (λ h. IsQueued h.1.registrations) db event_id target key now (race db)
          (λ _. later)
          (λ event rows found h.
            let row = new_registration db (race db) event event_id target key now in
            rw (add_row_rows registration_conflict row (race db).registrations rows h).1 (
              IsQueued-append (race db).registrations row
                (new_behind db (race db) event event_id target key now (race db).registrations quiet
                  (below_last event_id (race db).registrations))
                later))
          (λ _ _. later)
