-- ===== src/Events/Patched.antt =====
-- What PATCH of src/routers/events.py leaves.
use checkin_service.Base.{ℕ, ◌≡◌, ◌≢◌, true, false, List, [], ◌∷◌, ok}
use checkin_service.Models.{Db, Event}
use checkin_service.Auth.Roles.{Actor}
use checkin_service.Auth.Gates.{assert_event_owner_or_admin}
use checkin_service.Events.Update.{EventUpdate}
use checkin_service.Events.Merged.{HasNoOffset, EndsAfter, IsMerged}

-- A row before and after a PATCH: it is the same event of the same school, owner and group; and where the
-- body's times have no offset, it ends after it starts.
pub record IsEdited (p : EventUpdate) (x y : Event) : Type 0 where
  pub same_id : y.id ≡ x.id
  pub same_school : y.school_id ≡ x.school_id
  pub same_owner : y.owner_user_id ≡ x.owner_user_id
  pub same_group : y.group_id ≡ x.group_id
  pub same_kind : y.group_kind ≡ x.group_kind
  pub same_key : y.idempotency_key ≡ x.idempotency_key
  pub ordered :
      HasNoOffset p.start_time → HasNoOffset p.end_time → EndsAfter y.start_time y.end_time

-- The table after it, row by row: a row of another id is as it was.
abbrev pub AreEdited : EventUpdate → ℕ → List Event → List Event → Type 0
AreEdited p k [] [] = Unit
AreEdited p k [] (y ∷ ys) = true ≡ false
AreEdited p k (x ∷ xs) [] = true ≡ false
AreEdited p k (x ∷ xs) (y ∷ ys) =
    (x.id ≢ k → y ≡ x) × (x.id ≡ k → IsEdited p x y) × AreEdited p k xs ys

-- A PATCH that went through: of a row of the path's id, which the caller may change.
pub record IsPatch (actor : Actor) (event_id : ℕ) (p : EventUpdate) (before after : Db)
    (new : Event) : Type 0 where
  pub event : Event
  pub allowed : assert_event_owner_or_admin actor event.owner_user_id event.school_id ≡ ok tt
  pub of_path : event.id ≡ event_id
  pub edited : IsEdited p event new
  pub as_asked : IsMerged p event new
  pub rows : AreEdited p event_id before.events after.events
  pub rest : after ≡ record before { events = after.events }
