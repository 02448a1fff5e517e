-- ===== src/Registrations/Cases.antt =====
-- Case rules of the handlers: what holds of every way in which a handler ends holds of its result.
use checkin_service.Base.{
  ℕ, ◌+◌, ◌≡◌, Option, none, some, List, first, update_where, Option-cases, inl, inr, HttpError,
  Result-cases, ok, err, ◌==◌, any, Bool-cases, if◌then◌else◌,
}
use checkin_service.Text.{Text}
use checkin_service.Models.{Db, DateTime, Event, Registration, registration_conflict}
use checkin_service.Models.Store.{add_row}
use checkin_service.Auth.Roles.{Actor, is_admin}
use checkin_service.Auth.Gates.{assert_self_or_admin}
use checkin_service.Registrations.Gate.{register_gate, resolve_event_or_404}
use checkin_service.Registrations.Defs.{
  Handled, new_registration, by_attendee, enroll, replayed, register_for_event, set_cancelled,
  cancel_registration,
}

abbrev pub inserted : Db → List Registration → Db
inserted db rows = record db { registrations = rows; next_id = db.next_id + 1 }

pub enroll_cases {κ} :
    (P : Handled Registration → Type κ) (seen : Db) (event_id : ℕ) (target : Text)
    (key : Option Text) (now : DateTime) (db : Db)
    → ((e : HttpError) → P (err e, db))
    → ((event : Event) (rows : List Registration)
        → first (λ (e : Event). e.id == event_id) seen.events ≡ some event
        → add_row registration_conflict
            (new_registration seen db event event_id target key now)
            db.registrations
          ≡ some rows
        → P (ok (new_registration seen db event event_id target key now), inserted db rows))
    → ((existing : Registration)
        → first (by_attendee event_id target) db.registrations ≡ some existing
        → P (ok existing, db))
    → P (enroll seen event_id target key now db)
unfolding enroll
enroll_cases P seen event_id target key now db failed new old =
    elim (Bool-cases (any (λ (e : Event). e.id == event_id) db.events)) [
      | inr a ↦ rw (a, enroll) (failed _)
      | inl a ↦ elim (Option-cases (first (λ (e : Event). e.id == event_id) seen.events)) [
        | inl e ↦ rw (a, enroll) (rw e (failed _))
        | inr (event, e) ↦
            let r = new_registration seen db event event_id target key now in
            elim (Option-cases (add_row registration_conflict r db.registrations)) [
              | inl h ↦ elim (Option-cases (first (by_attendee event_id target) db.registrations)) [
                | inl g ↦ rw (a, enroll) (rw e (rw h (rw g (failed _))))
                | inr (existing, g) ↦ rw (a, enroll) (rw e (rw h (rw g (old existing g))))
              ]
              | inr (rows, h) ↦ rw (a, enroll) (rw e (rw h (new event rows e h)))
            ]
      ]
    ]

pub register_cases {κ} :
    (P : Handled Registration → Type κ) (race : Db → Db) (actor : Actor) (event_id : ℕ)
    (attendee key : Option Text) (now : DateTime) (db : Db)
    → ((e : HttpError) → P (err e, db))
    → ((event : Event) (target : Text) (existing : Registration)
        → register_gate db actor event_id attendee key ≡ ok (event, target)
        → replayed db event_id key ≡ some existing
        → P (ok existing, db))
    → ((event : Event) (target : Text)
        → register_gate db actor event_id attendee key ≡ ok (event, target)
        → replayed db event_id key ≡ none
        → P (enroll db event_id target key now (race db)))
    → P (register_for_event race actor event_id attendee key now db)
unfolding register_for_event
register_cases P race actor event_id attendee key now db failed replay go =
    elim (Result-cases (register_gate db actor event_id attendee key)) [
      | inl (e, h) ↦ rw (h, register_for_event) (failed e)
      | inr ((event, target), h) ↦ elim (Option-cases (replayed db event_id key)) [
        | inl g ↦ rw (h, register_for_event) (rw g (go event target h g))
        | inr (existing, g) ↦ rw (h, register_for_event) (rw g (replay event target existing h g))
      ]
    ]

abbrev pub cancelled_in : Db → Registration → DateTime → Db
cancelled_in db r now = record db {
  registrations =
      update_where (λ (x : Registration). x.id == r.id) (set_cancelled now) db.registrations;
}

pub cancel_cases {κ} :
    (P : Handled ℕ → Type κ) (actor : Actor) (event_id : ℕ) (target : Text) (now : DateTime)
    (db : Db)
    → ((e : HttpError) → P (err e, db))
    → ((event : Event) (r : Registration)
        → resolve_event_or_404 db event_id (if is_admin actor then actor.school_id else none)
          ≡ ok event
        → first (by_attendee event.id target) db.registrations ≡ some r
        → P (ok r.id, cancelled_in db r now))
    → P (cancel_registration actor event_id target now db)
unfolding cancel_registration
cancel_cases P actor event_id target now db failed done =
    elim (Result-cases (assert_self_or_admin actor target)) [
      | inl (e, h) ↦ rw (h, cancel_registration) (failed e)
      | inr (u, h) ↦
          elim (Result-cases
            (resolve_event_or_404 db event_id (if is_admin actor then actor.school_id else none))) [
              | inl (e, g) ↦ rw (h, cancel_registration) (rw g (failed e))
              | inr (event, g) ↦
                  elim (Option-cases (first (by_attendee event.id target) db.registrations)) [
                    | inl k ↦ rw (h, cancel_registration) (rw g (rw k (failed _)))
                    | inr (r, k) ↦ rw (h, cancel_registration) (rw g (rw k (done event r g k)))
                  ]
            ]
    ]
