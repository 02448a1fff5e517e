-- ===== src/Registrations/Listing.antt =====
-- GET /events/{id}/registrations of src/routers/registrations.py. Rows of the same time are in the
-- order of the table, which the database does not promise.
use checkin_service.Base.{
  ℕ, Option, List, map, leb, select, ◌==◌, Result, ok, raise_if, http, school_id_required, ◌>>=◌,
  ◌>>◌,
}
use checkin_service.Base.Sorting.{sort_by}
use checkin_service.Text.{Text, is_falsy}
use checkin_service.Models.{Db, DateTime, Registration, RegistrationStatus}
use checkin_service.Hashing.{Crypto, Keys, hash_pii}
use checkin_service.Auth.Roles.{Actor}
use checkin_service.Auth.Gates.{require_admin}
use checkin_service.Registrations.Gate.{resolve_event_or_404}

pub record RegistrationListResponse : Type 0 where
  pub id : ℕ
  pub event_id : ℕ
  pub hashed_attendee_id : Text
  pub status : RegistrationStatus
  pub waitlist_position : Option ℕ
  pub registered_at : DateTime

module _ (crypto : Crypto) (keys : Keys) where
  unfoldable pub listed : Registration → RegistrationListResponse
  listed r = record {
    id = r.id;
    event_id = r.event_id;
    hashed_attendee_id = hash_pii crypto keys r.attendee_user_id;
    status = r.status;
    waitlist_position = r.waitlist_position;
    registered_at = r.registered_at;
  }

  unfoldable pub list_registrations : Actor → ℕ → Db → Result (List RegistrationListResponse)
  unfolding listed
  list_registrations actor event_id db = do
    admin ← require_admin actor
    raise_if (is_falsy actor.school_id) (http 403 school_id_required)
    event ← resolve_event_or_404 db event_id actor.school_id
    ok (
        map listed (
          sort_by (λ (a b : Registration). leb a.registered_at b.registered_at)
            (select (λ (r : Registration). r.event_id == event.id) db.registrations)))
