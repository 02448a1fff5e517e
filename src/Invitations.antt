-- ===== src/Invitations.antt =====
-- src/routers/event_invitations.py: the owner's batch of invitations and its list, and the
-- invitee's answer and list.
pub mod Sent
pub mod Answered
use checkin_service.Base.Sorting.{sort_by}
use checkin_service.Base.{
  leb, ℕ, ◌+◌, Bool, true, false, ◌&&◌, Option, none, some, List, [], ◌∷◌, ◌++◌, ◌==◌, first,
  select, length, update_where, if◌then◌else◌, not, Result, ok, err, ◌>>=◌, ◌>>◌, http,
  event_not_found, permission_denied, invitation_not_found, user_id_required, integrity_error,
}
use checkin_service.Text.{Text, txt, text_eq, member, is_empty, is_falsy, or_else}
use checkin_service.Models.{Db, DateTime, Event, Invitation, InvitationStatus, invitation_conflict}
use checkin_service.Models.Store.{add_row}
use checkin_service.Hashing.{Crypto, Keys, hash_pii, sanitize_text}
use checkin_service.Auth.Roles.{Actor}
use checkin_service.Auth.Gates.{personal_namespace, is_user, assert_event_owner_or_admin}

-- an item of an `InvitationSendRequest`
pub record Invitee : Type 0 where
  pub invitee_user_id : Text
  pub reason : Option Text

-- an `InvitationCreateBatchResponse`
pub record Batch : Type 0 where
  pub sent : ℕ
  pub already_existed : ℕ
  pub invitations : List Invitation

pub data Decision : Type 0 where
  accept decline : Decision

unfoldable pub status_of : Decision → InvitationStatus
status_of accept = InvitationStatus.accepted
status_of decline = InvitationStatus.declined

-- the caller's school and personal namespace
unfoldable pub candidate_tenants : Actor → List Text
candidate_tenants actor =
    (if is_falsy actor.school_id then [] else or_else actor.school_id [] ∷ [])
    ++ (if is_falsy actor.user_id then [] else personal_namespace (or_else actor.user_id []) ∷ [])

unfoldable pub resolve_event_for_owner : Db → ℕ → Actor → Result Event
unfolding candidate_tenants
resolve_event_for_owner db event_id actor =
    elim (first (λ (e : Event). e.id == event_id && member e.school_id (candidate_tenants actor))
      db.events) [ none ↦ err (http 404 event_not_found) | some e ↦ ok e ]

unfoldable pub owner_gate : Db → ℕ → Actor → Result Event
owner_gate db event_id actor = do
  event ← resolve_event_for_owner db event_id actor
  assert_event_owner_or_admin actor event.owner_user_id event.school_id
  ok event

unfoldable pub by_invitee : ℕ → Text → Invitation → Bool
by_invitee event_id invitee i = i.event_id == event_id && text_eq i.invitee_user_id invitee

-- The transaction of a batch: the invitations that its queries find, which are those of its snapshot and
-- its own, and the tables that its inserts meet.
pub record Session : Type 0 where
  pub view : List Invitation
  pub store : Db

-- One turn of the loop: the row of the invitee, and whether it is new.
pub data Turn : Type 0 where
  created existed : Invitation → Session → Turn
  failed : Turn

unfoldable pub count_created : Invitation → Batch → Batch
count_created i b = record b { sent = b.sent + 1; invitations = i ∷ b.invitations }

unfoldable pub count_existed : Invitation → Batch → Batch
count_existed i b = record b {
  already_existed = b.already_existed + 1;
  invitations = i ∷ b.invitations;
}

-- what is left when the batch is rolled back
unfoldable pub others : (ℕ → Db → Db) → List Invitee → Db → Db
others race [] db = db
others race (item ∷ items) db = others race items (race (length items) db)

module _ (crypto : Crypto) (keys : Keys) where
  abbrev pub new_invitation : ℕ → Event → Text → Invitee → DateTime → Db → Invitation
  new_invitation event_id event inviter item now db = record {
    id = db.next_id;
    school_id = event.school_id;
    event_id = event_id;
    inviter_user_id = inviter;
    hashed_inviter_id = hash_pii crypto keys inviter;
    invitee_user_id = item.invitee_user_id;
    hashed_invitee_id = hash_pii crypto keys item.invitee_user_id;
    status = InvitationStatus.sent;
    reason_sn = sanitize_text item.reason 2000;
    created_at = now;
    responded_at = none;
  }

  -- The insert in its savepoint. A row that collides is rolled back, and the query runs again, in the
  -- same snapshot.
  unfoldable pub insert_invitation : ℕ → Event → Text → Invitee → DateTime → Session → Turn
  insert_invitation event_id event inviter item now s =
      let row = new_invitation event_id event inviter item now s.store in
      elim (add_row invitation_conflict row s.store.invitations) [
        | some rows ↦ created row (record {
          view = s.view ++ row ∷ [];
          store = record s.store { invitations = rows; next_id = s.store.next_id + 1 };
        })
        | none ↦ elim (first (by_invitee event_id item.invitee_user_id) s.view) [
          | some existing ↦ existed existing s
          | none ↦ failed
        ]
      ]

  -- `race` is what other requests commit between the query and the insert.
  unfoldable pub invite_one : (Db → Db) → ℕ → Event → Text → Invitee → DateTime → Session → Turn
  unfolding insert_invitation
  invite_one race event_id event inviter item now s =
      elim (first (by_invitee event_id item.invitee_user_id) s.view) [
        | some existing ↦ existed existing s
        | none ↦
            insert_invitation event_id event inviter item now (record s { store = race s.store })
      ]

  -- The loop: `none` is an `IntegrityError` that it raises. `race n` is the interference with the
  -- turn that has n items behind it.
  unfoldable pub send_all :
      (ℕ → Db → Db) → ℕ → Event → Text → List Invitee → DateTime → Session → Option (Batch × Db)
  unfolding count_created count_existed
  send_all race event_id event inviter [] now s =
      some (record { sent = 0; already_existed = 0; invitations = [] }, s.store)
  send_all race event_id event inviter (item ∷ items) now s =
      elim (invite_one (race (length items)) event_id event inviter item now s) [
        | failed ↦ none
        | created row s' ↦ elim (send_all race event_id event inviter items now s') [
          | none ↦ none
          | some out ↦ some (count_created row out.0, out.1)
        ]
        | existed row s' ↦ elim (send_all race event_id event inviter items now s') [
          | none ↦ none
          | some out ↦ some (count_existed row out.0, out.1)
        ]
      ]

  unfoldable pub send_invitations :
      (ℕ → Db → Db) → Actor → ℕ → List Invitee → DateTime → Db → Result Batch × Db
  unfolding others
  send_invitations race actor event_id items now db = elim (owner_gate db event_id actor) [
    | err e ↦ (err e, db)
    | ok event ↦
        elim (send_all race event_id event (or_else actor.user_id (txt "service")) items now
          (record { view = db.invitations; store = db })) [
            | none ↦ (err (http 500 integrity_error), others race items db)
            | some out ↦ (ok out.0, out.1)
          ]
  ]

-- the rows of GET /events/{id}/invitations, the earliest first
unfoldable pub list_invitations : Db → ℕ → Actor → Result (List Invitation)
list_invitations db event_id actor = do
  event ← owner_gate db event_id actor
  ok (
      sort_by (λ (a b : Invitation). leb a.created_at b.created_at)
        (select (λ (i : Invitation). i.event_id == event_id) db.invitations))

unfoldable pub set_answer : Decision → DateTime → Invitation → Invitation
unfolding status_of
set_answer decision now i = record i { status = status_of decision; responded_at = some now }

unfoldable pub respond_to_invitation :
    Actor → ℕ → ℕ → Decision → DateTime → Db → Result Invitation × Db
unfolding set_answer
respond_to_invitation actor event_id invitation_id decision now db =
    elim (first (λ (i : Invitation). i.id == invitation_id && i.event_id == event_id)
      db.invitations) [
        | none ↦ (err (http 404 invitation_not_found), db)
        | some i ↦
            if not (is_user actor i.invitee_user_id)
            then (err (http 403 permission_denied), db)
            else (
              ok (set_answer decision now i),
              record db {
                invitations =
                    update_where (λ (x : Invitation). x.id == i.id) (set_answer decision now)
                      db.invitations;
              },
            )
      ]

-- the rows of GET /me/invitations, the latest first
unfoldable pub list_my_invitations : Db → Actor → Result (List Invitation)
list_my_invitations db actor =
    if is_falsy actor.user_id
    then err (http 400 user_id_required)
    else ok (
        sort_by (λ (a b : Invitation). leb b.created_at a.created_at)
          (select (λ (i : Invitation). text_eq i.invitee_user_id (or_else actor.user_id []))
            db.invitations))
