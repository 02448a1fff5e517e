-- ===== src/Events/Closed.antt =====
-- The soft delete of an event of src/routers/events.py, and registrations for it.
use mathlib.Core.Path.{subst}
use checkin_service.Base.{
  ℕ, ◌≡◌, ◌≢◌, sym, true, false, Option, some, List, [], ◌∷◌, All, In, here, there, first,
  first-true, Result-cases, inl, inr, ok, arith, ◌==◌, update_where, >>=-eq-ok,
}
use checkin_service.Text.{Text}
use checkin_service.Models.{Db, DateTime, Event}
use checkin_service.Auth.Roles.{Actor}
use checkin_service.Auth.Gates.{assert_event_owner_or_admin}
use checkin_service.Registrations.Gate.{is_open, register_gate}
use checkin_service.Registrations.Admission.{register_gate-IsAdmitted}
use checkin_service.Events.{
  write_tenant, of_tenant, event_of, own_row, is_event_cancelled, set_event_cancelled, delete_event,
}

In-All {ℓ κ} : {A : Type ℓ} (P : A → Type κ) (xs : List A) (x : A) → All P xs → In x xs → P x
In-All P [] x a m = elim m [ ]
In-All P (y ∷ ys) x a (here e) = subst P (sym e) a.0
In-All P (y ∷ ys) x a (there m) = In-All P ys x a.1 m

-- The row that may be deleted is the one of the path, and its owner or an admin asks.
pub own_row-id :
    (actor : Actor) (event_id : ℕ) (db : Db) (e : Event)
    → own_row actor event_id db ≡ ok e
    → (e.id ≡ event_id) × (assert_event_owner_or_admin actor e.owner_user_id e.school_id ≡ ok tt)
unfolding own_row event_of of_tenant
own_row-id actor event_id db e h =
    let (tenant, h1, r1) = >>=-eq-ok (write_tenant actor) _ h in
    let (x, h2, r2) = >>=-eq-ok (event_of event_id tenant db) _ r1 in
    let (u, h3, r3) =
      >>=-eq-ok (assert_event_owner_or_admin actor x.owner_user_id x.school_id) _ r2 in
    let same : x ≡ e = cc r3 in
    let found : first (of_tenant event_id tenant) db.events ≡ some x = ground arith in
    let hit : of_tenant event_id tenant x ≡ true =
      first-true (of_tenant event_id tenant) db.events x found in
    subst
      (λ y.
        (y.id ≡ event_id) × (assert_event_owner_or_admin actor y.owner_user_id y.school_id ≡ ok tt))
      same (ground (arith, hit), h3)

closed_rows :
    (k : ℕ) (now : DateTime) (xs : List Event)
    → All
        (λ e. e.id ≡ k → is_open e.status ≡ false)
        (update_where (λ (x : Event). x.id == k) (set_event_cancelled now) xs)
unfolding update_where set_event_cancelled is_event_cancelled is_open
closed_rows k now [] = tt
closed_rows k now (x ∷ xs) = (ground arith, closed_rows k now xs)

-- An event that has been deleted was deleted by its author, an admin of its school or a service, and
-- in the database that the deletion leaves nobody passes the gate of a registration for it, whatever
-- the caller, the attendee and the key.
pub delete_event-closed :
    (actor other : Actor) (event_id k : ℕ) (now : DateTime) (db : Db) (attendee key : Option Text)
    (event : Event) (target : Text)
    → (delete_event actor event_id now db).0 ≡ ok k
    → ((deleted : Event) × (own_row actor event_id db ≡ ok deleted)
        × (assert_event_owner_or_admin actor deleted.owner_user_id deleted.school_id ≡ ok tt))
      × (register_gate (delete_event actor event_id now db).1 other event_id attendee key
          ≢ ok (event, target))
unfolding delete_event
delete_event-closed actor other event_id k now db attendee key event target h =
    elim (Result-cases (own_row actor event_id db)) [
      | inl (e, g) ↦ absurd (cc (rw (g, delete_event) at h))
      | inr (x, g) ↦
          let (same, allowed) = own_row-id actor event_id db x g in
          (
            (x, g, allowed),
            λ passed.
                let a =
                  register_gate-IsAdmitted _ other event_id attendee key event target passed in
                cc (closed x g same a.is_row a.is_asked a.is_opened),
          )
    ]
  where
    closed :
        (x : Event)
        → own_row actor event_id db ≡ ok x
        → x.id ≡ event_id
        → In event (delete_event actor event_id now db).1.events
        → event.id ≡ event_id
        → is_open event.status ≡ true
        → true ≡ false
    closed x g same m asked opened =
        let m' : In event
            (update_where (λ (y : Event). y.id == x.id) (set_event_cancelled now) db.events) =
          rw (g, delete_event) at m in
        let shut : is_open event.status ≡ false =
          In-All _ _ event (closed_rows x.id now db.events) m' (cc (same, asked)) in
        cc (opened, shut)
