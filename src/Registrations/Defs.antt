-- ===== src/Registrations/Defs.antt =====
-- The writes of src/routers/registrations.py. `race` is what other requests commit between the
-- handler's first read and its insert. The isolation level is MySQL's default, REPEATABLE READ: plain
-- queries of one transaction see the database as it was at the first of them, `seen`; a locking read,
-- a unique key and the queries after a rollback see what has been committed.
use Prim.Native.Nat.{max}
use checkin_service.Base.{
  ℕ, ◌+◌, Bool, true, false, ◌&&◌, Option, none, some, List, [], ◌∷◌, leb, ◌==◌, any, first,
  count_where, update_where, if◌then◌else◌, Result, ok, err, ◌>>◌, http, event_not_found,
  registration_not_found, duplicate_registration,
}
use checkin_service.Text.{Text, text_eq, is_empty}
use checkin_service.Models.{
  Db, DateTime, Event, Registration, RegistrationStatus, registered, waitlisted, cancelled,
  attended, no_show, registration_conflict, column_eq,
}
use checkin_service.Models.Store.{add_row}
use checkin_service.Auth.Roles.{Actor, is_admin}
use checkin_service.Auth.Gates.{assert_self_or_admin}
use checkin_service.Registrations.Gate.{register_gate, resolve_event_or_404}

-- A handler's result and the database that it leaves.
abbrev pub Handled : Type 0 → Type 0
Handled A = Result A × Db

-- `status.in_(("registered", "attended"))`
unfoldable pub is_seated : RegistrationStatus → Bool
is_seated registered = true
is_seated waitlisted = false
is_seated cancelled = false
is_seated attended = true
is_seated no_show = false

unfoldable pub is_waitlisted : RegistrationStatus → Bool
is_waitlisted registered = false
is_waitlisted waitlisted = true
is_waitlisted cancelled = false
is_waitlisted attended = false
is_waitlisted no_show = false

unfoldable pub holds_seat : ℕ → Registration → Bool
unfolding is_seated
holds_seat event_id r = r.event_id == event_id && is_seated r.status

unfoldable pub waits : ℕ → Registration → Bool
unfolding is_waitlisted
waits event_id r = r.event_id == event_id && is_waitlisted r.status

unfoldable pub active_count : Db → ℕ → ℕ
active_count db event_id = count_where (holds_seat event_id) db.registrations

-- `func.max(waitlist_position)` over the waitlisted rows, `or 0`
unfoldable pub last_position : ℕ → List Registration → ℕ
unfolding waits
last_position event_id [] = 0
last_position event_id (r ∷ rs) =
    max (if waits event_id r then (elim r.waitlist_position [ none ↦ 0 | some p ↦ p ]) else 0)
      (last_position event_id rs)

unfoldable pub by_attendee : ℕ → Text → Registration → Bool
by_attendee event_id target r = r.event_id == event_id && text_eq r.attendee_user_id target

unfoldable pub by_key : ℕ → Text → Registration → Bool
unfolding column_eq
by_key event_id key r = r.event_id == event_id && column_eq r.idempotency_key key

-- The status and the waitlist position of a new registration.
unfoldable pub seat : Db → Event → ℕ → RegistrationStatus × Option ℕ
seat db event event_id = elim event.max_capacity [
  | none ↦ (registered, none)
  | some capacity ↦
      if leb capacity (active_count db event_id)
      then (waitlisted, some (last_position event_id db.registrations + 1))
      else (registered, none)
]

abbrev pub new_registration : Db → Db → Event → ℕ → Text → Option Text → DateTime → Registration
new_registration seen db event event_id target key now = record {
  id = db.next_id;
  school_id = event.school_id;
  event_id = event_id;
  attendee_user_id = target;
  status = (seat seen event event_id).0;
  waitlist_position = (seat seen event event_id).1;
  idempotency_key = key;
  registered_at = now;
  updated_at = now;
}

-- The insert under the lock, into the committed `db`. The locking read finds whether the event's row is
-- there; its object is the one that the session has loaded by the same key before, with the columns
-- of then; and the count and the last position are of the snapshot. A row that collides is rolled
-- back, and the registration of the attendee is returned.
unfoldable pub enroll : Db → ℕ → Text → Option Text → DateTime → Db → Handled Registration
enroll seen event_id target key now db =
    if any (λ (e : Event). e.id == event_id) db.events
    then elim (first (λ (e : Event). e.id == event_id) seen.events) [
      | none ↦ (err (http 404 event_not_found), db)
      | some event ↦
          let r = new_registration seen db event event_id target key now in
          elim (add_row registration_conflict r db.registrations) [
            | some rows ↦ (ok r, record db { registrations = rows; next_id = db.next_id + 1 })
            | none ↦ elim (first (by_attendee event_id target) db.registrations) [
              | some existing ↦ (ok existing, db)
              | none ↦ (err (http 409 duplicate_registration), db)
            ]
          ]
    ]
    else (err (http 404 event_not_found), db)

-- `if idempotency_key:` the row of the same event and key.
unfoldable pub replayed : Db → ℕ → Option Text → Option Registration
unfolding by_key
replayed db event_id none = none
replayed db event_id (some key) =
    if is_empty key then none else first (by_key event_id key) db.registrations

unfoldable pub register_for_event :
    (Db → Db) → Actor → ℕ → Option Text → Option Text → DateTime → Db → Handled Registration
register_for_event race actor event_id attendee key now db =
    elim (register_gate db actor event_id attendee key) [
      | err e ↦ (err e, db)
      | ok (event, target) ↦ elim (replayed db event_id key) [
        | some existing ↦ (ok existing, db)
        | none ↦ enroll db event_id target key now (race db)
      ]
    ]

unfoldable pub is_cancelled : RegistrationStatus → Bool
is_cancelled registered = false
is_cancelled waitlisted = false
is_cancelled cancelled = true
is_cancelled attended = false
is_cancelled no_show = false

-- The assignment of the same status is no UPDATE.
unfoldable pub set_cancelled : DateTime → Registration → Registration
unfolding is_cancelled
set_cancelled now r =
    if is_cancelled r.status then r else record r { status = cancelled; updated_at = now }

unfoldable pub cancel_registration : Actor → ℕ → Text → DateTime → Db → Handled ℕ
cancel_registration actor event_id target now db =
    elim (do
      assert_self_or_admin actor target
      resolve_event_or_404 db event_id (if is_admin actor then actor.school_id else none)) [
        | err e ↦ (err e, db)
        | ok event ↦ elim (first (by_attendee event.id target) db.registrations) [
          | none ↦ (err (http 404 registration_not_found), db)
          | some r ↦ (
            ok r.id,
            record db {
              registrations =
                  update_where (λ (x : Registration). x.id == r.id) (set_cancelled now)
                    db.registrations;
            },
          )
        ]
      ]
