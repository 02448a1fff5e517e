-- ===== src/Registrations/Admission.antt =====
-- What a request that passes the gate of POST /events/{id}/register has shown.
use mathlib.Core.Path.{subst₂}
use checkin_service.Registrations.Access.{MayJoin, visibility_gate_iff}
use checkin_service.Base.{
  [], >>=-eq-ok, require-eq-ok, ℕ, ◌≡◌, refl, true, ◌||◌, Option, none, some, arith, first,
  first-In, first-true, In, ok, require, http, event_not_open, if◌then◌else◌, Option-cases, inl,
  inr, ◌⊎◌,
}
use checkin_service.Text.{Text, text_eq, is_falsy, or_else}
use checkin_service.Text.Equality.{text_eq_iff}
use checkin_service.Models.{Db, Event}
use checkin_service.Auth.Roles.{Actor, is_admin, is_bypass}
use checkin_service.Auth.Gates.{is_user, assert_self_or_admin}
use checkin_service.Registrations.Gate.{
  is_event, visibility_gate, is_open, resolve_event_or_404, register_gate, target_user,
  validate_idem_key,
}

-- What a request that passes the gate of the handler has shown.
pub record IsAdmitted (db : Db) (actor : Actor) (event_id : ℕ) (event : Event) (target : Text)
    : Type 0 where
  pub is_row : In event db.events
  pub is_asked : event.id ≡ event_id
  pub is_opened : is_open event.status ≡ true
  pub is_self_or_admin : (is_bypass actor ≡ true) ⊎ (is_user actor target ≡ true)
  pub in_school :
      is_admin actor ≡ true
      → (is_falsy actor.school_id ≡ true) ⊎ (actor.school_id ≡ some event.school_id)
  pub may_join : MayJoin db actor event target event.visibility

school_matches :
    (school : Option Text) (event : Event)
    → (is_falsy school || text_eq event.school_id (or_else school [])) ≡ true
    → (is_falsy school ≡ true) ⊎ (school ≡ some event.school_id)
school_matches none event h = inl refl
school_matches (some s) event h = ground (arith, text_eq_iff event.school_id s)

pub resolve_event_row :
    (db : Db) (event_id : ℕ) (school : Option Text) (event : Event)
    → resolve_event_or_404 db event_id school ≡ ok event
    → In event db.events
      × (event.id ≡ event_id)
      × ((is_falsy school ≡ true) ⊎ (school ≡ some event.school_id))
unfolding resolve_event_or_404 is_event
resolve_event_row db event_id school event h =
    elim (Option-cases (first (is_event event_id school) db.events)) [
      | inl none_found ↦ absurd (ground arith)
      | inr (e, found) ↦
          let same : e ≡ event = ground arith in
          let found' : first (is_event event_id school) db.events ≡ some event =
            rw found (rw same) in
          let p = first-true (is_event event_id school) db.events event found' in
          (
            first-In (is_event event_id school) db.events event found',
            ground arith,
            school_matches school event (ground arith),
          )
    ]

pub self_or_admin :
    (actor : Actor) (target : Text)
    → assert_self_or_admin actor target ≡ ok tt
    → (is_bypass actor ≡ true) ⊎ (is_user actor target ≡ true)
unfolding assert_self_or_admin
self_or_admin actor target h = ground arith

abbrev pub school_filter : Actor → Option Text
school_filter actor = if is_admin actor then actor.school_id else none

admitted :
    (db : Db) (actor : Actor) (event_id : ℕ) (event : Event) (target : Text)
    → assert_self_or_admin actor target ≡ ok tt
    → resolve_event_or_404 db event_id (school_filter actor) ≡ ok event
    → is_open event.status ≡ true
    → visibility_gate db actor event target event.visibility ≡ ok tt
    → IsAdmitted db actor event_id event target
admitted db actor event_id event target h3 h4 h5 h6 =
    let (row, asked, school) = resolve_event_row db event_id (school_filter actor) event h4 in
    record {
      is_row = row;
      is_asked = asked;
      is_opened = h5;
      is_self_or_admin = self_or_admin actor target h3;
      in_school = λ a. let q : school_filter actor ≡ actor.school_id = rw a in rw (← q) school;
      may_join = (visibility_gate_iff db actor event target event.visibility).0 h6;
    }

-- A request that passes the gate is for an existing event with the id of the path that is published or
-- active, for the caller or by an administrator, and in a case of `MayJoin`; an administrator with a school
-- only reaches the events of that school. (Other callers, and administrators without a school, are
-- not confined to a school by it.)
pub register_gate-IsAdmitted :
    (db : Db) (actor : Actor) (event_id : ℕ) (attendee key : Option Text) (event : Event)
    (target : Text)
    → register_gate db actor event_id attendee key ≡ ok (event, target)
    → IsAdmitted db actor event_id event target
unfolding register_gate
register_gate-IsAdmitted db actor event_id attendee key event target h =
    let (safe_key, h1, r1) = >>=-eq-ok (validate_idem_key key) _ h in
    let (t, h2, r2) = >>=-eq-ok (target_user actor attendee) _ r1 in
    let (u, h3, r3) = >>=-eq-ok (assert_self_or_admin actor t) _ r2 in
    let (e, h4, r4) = >>=-eq-ok (resolve_event_or_404 db event_id (school_filter actor)) _ r3 in
    let (w, h5, r5) = >>=-eq-ok (require (is_open e.status) (http 409 event_not_open)) _ r4 in
    let (x, h6, r6) = >>=-eq-ok (visibility_gate db actor e t e.visibility) _ r5 in
    let event_eq : e ≡ event = cc r6 in
    let target_eq : t ≡ target = cc r6 in
    subst₂ (IsAdmitted db actor event_id) event_eq target_eq
      (admitted db actor event_id e t h3 h4 (require-eq-ok (is_open e.status) _ h5) h6)
