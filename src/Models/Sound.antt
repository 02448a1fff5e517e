-- ===== src/Models/Sound.antt =====
-- The invariant of the database: in no table do two rows collide, and every primary key is below
-- `next_id`. (One counter serves all tables, since only its freshness matters.)
use checkin_service.Base.{ℕ, ◌+◌, ◌<◌, ◌≡◌, refl, Option, none, some, List, [], ◌∷◌, arith, All}
use checkin_service.Text.{Text}
use checkin_service.Text.Equality.{text_eq_comm}
use checkin_service.Models.{
  Db, Event, Registration, Checkin, Invitation, QrToken, event_conflict, registration_conflict,
  checkin_conflict, invitation_conflict, qr_conflict, same_key,
}
use checkin_service.Models.Store.{IsDistinct}

pub record IsSound (db : Db) : Type 0 where
  pub events_distinct : IsDistinct event_conflict db.events
  pub registrations_distinct : IsDistinct registration_conflict db.registrations
  pub checkins_distinct : IsDistinct checkin_conflict db.checkins
  pub invitations_distinct : IsDistinct invitation_conflict db.invitations
  pub qr_distinct : IsDistinct qr_conflict db.qr_tokens
  pub event_ids : All (λ (e : Event). e.id < db.next_id) db.events
  pub registration_ids : All (λ (r : Registration). r.id < db.next_id) db.registrations
  pub checkin_ids : All (λ (c : Checkin). c.id < db.next_id) db.checkins
  pub invitation_ids : All (λ (i : Invitation). i.id < db.next_id) db.invitations
  pub qr_ids : All (λ (q : QrToken). q.id < db.next_id) db.qr_tokens

pub same_key_comm : (a b : Option Text) → same_key a b ≡ same_key b a
unfolding same_key
same_key_comm none none = refl
same_key_comm none (some b) = refl
same_key_comm (some a) none = refl
same_key_comm (some a) (some b) = text_eq_comm a b

pub event_conflict_comm : (a b : Event) → event_conflict a b ≡ event_conflict b a
unfolding event_conflict
event_conflict_comm a b =
    ground (
      arith,
      text_eq_comm a.school_id b.school_id,
      same_key_comm a.idempotency_key b.idempotency_key,
    )

pub checkin_conflict_comm : (a b : Checkin) → checkin_conflict a b ≡ checkin_conflict b a
unfolding checkin_conflict
checkin_conflict_comm a b = ground (arith, text_eq_comm a.attendee_user_id b.attendee_user_id)

pub invitation_conflict_comm :
    (a b : Invitation) → invitation_conflict a b ≡ invitation_conflict b a
unfolding invitation_conflict
invitation_conflict_comm a b = ground (arith, text_eq_comm a.invitee_user_id b.invitee_user_id)

-- A larger counter keeps the keys below it.
pub All-below {ℓ} :
    {A : Type ℓ} (key : A → ℕ) (n : ℕ) (xs : List A)
    → All (λ x. key x < n) xs
    → All (λ x. key x < n + 1) xs
All-below key n [] h = tt
All-below key n (x ∷ xs) h = (omega (arith, h.0), All-below key n xs h.1)
