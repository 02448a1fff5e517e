-- ===== src/Invitations/Sent.antt =====
-- The batch of invitations of src/routers/event_invitations.py.
use checkin_service.Base.{
  ℕ, ◌+◌, ◌<◌, ◌≡◌, true, false, Option, some, List, [], ◌∷◌, any, length, arith,
}
use checkin_service.Text.{Text}
use checkin_service.Models.{Db, Invitation, invitation_conflict}
use checkin_service.Models.Store.{add_row, add_row-IsDistinct, add_row-All}
use checkin_service.Models.Sound.{IsSound, invitation_conflict_comm, All-below}
use checkin_service.Hashing.{Crypto, Keys}
use checkin_service.Invitations.{
  Invitee, Batch, Turn, Session, created, existed, failed, by_invitee,
}

-- A row that answers for an item.
abbrev pub IsFor : ℕ → Invitee → Invitation → Type 0
IsFor event_id item row = (row.event_id ≡ event_id) × (row.invitee_user_id ≡ item.invitee_user_id)

-- One row for each item, in their order.
abbrev pub AreFor : ℕ → List Invitee → List Invitation → Type 0
AreFor event_id [] [] = Unit
AreFor event_id [] (r ∷ rs) = true ≡ false
AreFor event_id (i ∷ is) [] = true ≡ false
AreFor event_id (i ∷ is) (r ∷ rs) = IsFor event_id i r × AreFor event_id is rs

-- Who is not among the invitations that the queries find is not invited.
record IsSeen (event_id : ℕ) (s : Session) : Type 0 where
  seen :
      (invitee : Text)
      → any (by_invitee event_id invitee) s.view ≡ false
      → any (by_invitee event_id invitee) s.store.invitations ≡ false

-- Other requests that commit inside a batch invite nobody anew to the event.
pub record IsQuiet (event_id : ℕ) (race : Db → Db) : Type 0 where
  pub invites_nobody :
      (d : Db) (invitee : Text)
      → any (by_invitee event_id invitee) d.invitations ≡ false
      → any (by_invitee event_id invitee) (race d).invitations ≡ false

abbrev IsGoing : ℕ → Invitee → Invitation → Session → Type 0
IsGoing event_id item row s = IsFor event_id item row × IsSound s.store × IsSeen event_id s

abbrev IsTurn : ℕ → Invitee → Turn → Type 0
IsTurn event_id item (created row s) = IsGoing event_id item row s
IsTurn event_id item (existed row s) = IsGoing event_id item row s
IsTurn event_id item failed = true ≡ false

pub invited-IsSound :
    (row : Invitation) (rows : List Invitation) (db : Db)
    → row.id ≡ db.next_id
    → add_row invitation_conflict row db.invitations ≡ some rows
    → IsSound db
    → IsSound (record db { invitations = rows; next_id = db.next_id + 1 })
invited-IsSound row rows db fresh h s = record {
  events_distinct = s.events_distinct;
  registrations_distinct = s.registrations_distinct;
  checkins_distinct = s.checkins_distinct;
  invitations_distinct =
      add_row-IsDistinct invitation_conflict row db.invitations rows invitation_conflict_comm h
        s.invitations_distinct;
  qr_distinct = s.qr_distinct;
  event_ids = All-below (λ e. e.id) db.next_id db.events s.event_ids;
  registration_ids = All-below (λ r. r.id) db.next_id db.registrations s.registration_ids;
  checkin_ids = All-below (λ c. c.id) db.next_id db.checkins s.checkin_ids;
  invitation_ids =
      add_row-All invitation_conflict (λ x. x.id < db.next_id + 1) row db.invitations rows h
        (omega arith) (All-below (λ x. x.id) db.next_id db.invitations s.invitation_ids);
  qr_ids = All-below (λ q. q.id) db.next_id db.qr_tokens s.qr_ids;
}

module _ (crypto : Crypto) (keys : Keys) where
  -- The loop went through, with one row for each item and each item counted once.
  abbrev pub IsSent : ℕ → List Invitee → Option (Batch × Db) → Type 0
  IsSent event_id items o =
      (b : Batch) × (d : Db) × (o ≡ some (b, d))
      × (b.sent + b.already_existed ≡ length items)
      × AreFor event_id items b.invitations
      × IsSound d
