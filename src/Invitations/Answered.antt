-- ===== src/Invitations/Answered.antt =====
-- The answer to an invitation, of src/routers/event_invitations.py.
use mathlib.Core.Path.{subst}
use checkin_service.Base.{
  false, In, first-In, List, [], ◌∷◌, ◌≢◌, some, ℕ, ◌<◌, ◌≡◌, refl, true, Bool, first, first-true,
  Option-cases, Bool-cases, inl, inr, ◌⊎◌, ok, err, HttpError, All-update_where, update_where, ◌==◌,
  ◌&&◌, ◌∙◌, arith,
}
use checkin_service.Models.{Db, DateTime, Invitation, InvitationStatus, invitation_conflict}
use checkin_service.Models.Store.{IsDistinct-update_where}
use checkin_service.Models.Sound.{IsSound, invitation_conflict_comm}
use checkin_service.Auth.Roles.{Actor}
use checkin_service.Auth.Gates.{is_user}
use checkin_service.Invitations.{Decision, status_of, set_answer, respond_to_invitation}

answer_keeps_keys :
    (d : Decision) (now : DateTime) (a b : Invitation)
    → invitation_conflict (set_answer d now a) b ≡ invitation_conflict a b
unfolding invitation_conflict set_answer
answer_keeps_keys d now a b = refl

answer_keeps_id : (d : Decision) (now : DateTime) (a : Invitation) → (set_answer d now a).id ≡ a.id
unfolding set_answer
answer_keeps_id d now a = refl

answered-IsSound :
    (p : Invitation → Bool) (d : Decision) (now : DateTime) (db : Db)
    → IsSound db
    → IsSound (record db { invitations = update_where p (set_answer d now) db.invitations })
answered-IsSound p d now db s = record {
  events_distinct = s.events_distinct;
  registrations_distinct = s.registrations_distinct;
  checkins_distinct = s.checkins_distinct;
  invitations_distinct =
      IsDistinct-update_where invitation_conflict p (set_answer d now) db.invitations
        (answer_keeps_keys d now)
        (λ a b.
          invitation_conflict_comm a (set_answer d now b)
          ∙ (answer_keeps_keys d now b a ∙ invitation_conflict_comm b a))
        s.invitations_distinct;
  qr_distinct = s.qr_distinct;
  event_ids = s.event_ids;
  registration_ids = s.registration_ids;
  checkin_ids = s.checkin_ids;
  invitation_ids =
      All-update_where (λ (x : Invitation). x.id < db.next_id) p (set_answer d now) db.invitations
        (λ x h. rw answer_keeps_id h) s.invitation_ids;
  qr_ids = s.qr_ids;
}

-- The table after the answer, row by row: a row of another id is as it was, and one of this id has the
-- status and the time, and is otherwise as it was.
abbrev pub AreAnswered :
    ℕ → InvitationStatus → DateTime → List Invitation → List Invitation → Type 0
AreAnswered k status now [] [] = Unit
AreAnswered k status now [] (y ∷ ys) = true ≡ false
AreAnswered k status now (x ∷ xs) [] = true ≡ false
AreAnswered k status now (x ∷ xs) (y ∷ ys) =
    (x.id ≢ k → y ≡ x)
    × (x.id ≡ k → y ≡ record x { status = status; responded_at = some now })
    × AreAnswered k status now xs ys

-- An answer that is taken: the row before it is one of the table, of the path's event and id and of the
-- caller; the row that is returned has the decision; and of the database only that row changes.
pub record IsAnswer (actor : Actor) (event_id invitation_id : ℕ) (status : InvitationStatus)
    (now : DateTime) (before after : Db) (i : Invitation) : Type 0 where
  pub asked : Invitation
  pub stood : In asked before.invitations
  pub by_invitee : is_user actor asked.invitee_user_id ≡ true
  pub of_event : asked.event_id ≡ event_id
  pub of_path : asked.id ≡ invitation_id
  pub returned : i ≡ record asked { status = status; responded_at = some now }
  pub rows : AreAnswered invitation_id status now before.invitations after.invitations
  pub rest : after ≡ record before { invitations = after.invitations }

answered_rows :
    (k : ℕ) (d : Decision) (now : DateTime) (xs : List Invitation)
    → AreAnswered k
        (status_of d)
        now
        xs
        (update_where (λ (x : Invitation). x.id == k) (set_answer d now) xs)
unfolding update_where set_answer
answered_rows k d now [] = tt
answered_rows k d now (x ∷ xs) =
    (λ ne. ground (arith, ne), λ e. ground (arith, e), answered_rows k d now xs)

-- From a database with sound keys: the answer to an invitation is an error that changes nothing, or the
-- caller is the invitee of the invitation of the path's event and id (admins and services are no
-- exception), exactly that row takes the decision and the time, and nothing else in the database
-- changes; and the keys stay sound.
pub respond-IsAnswer :
    (actor : Actor) (event_id invitation_id : ℕ) (d : Decision) (now : DateTime) (db : Db)
    → IsSound db
    → let out = respond_to_invitation actor event_id invitation_id d now db in
      IsSound out.1
      × (((e : HttpError) × (out ≡ (err e, db)))
          ⊎ ((i : Invitation) × (out.0 ≡ ok i)
              × IsAnswer actor event_id invitation_id (status_of d) now db out.1 i))
unfolding respond_to_invitation set_answer
respond-IsAnswer actor event_id invitation_id d now db s =
    let p = λ (i : Invitation). i.id == invitation_id && i.event_id == event_id in
    elim (Option-cases (first p db.invitations)) [
      | inl e ↦ rw (e, respond_to_invitation) (s, inl (_, refl))
      | inr (i, e) ↦
          let hit : p i ≡ true = first-true p db.invitations i e in
          elim (Bool-cases (is_user actor i.invitee_user_id)) [
            | inr n ↦ rw (e, respond_to_invitation) (rw n (s, inl (_, refl)))
            | inl y ↦
                rw (e, respond_to_invitation)
                  (rw y (
                    answered-IsSound (λ (x : Invitation). x.id == i.id) d now db s,
                    inr (
                      _,
                      refl,
                      (let same : i.id ≡ invitation_id = ground (arith, hit) in
                          record {
                            asked = i;
                            stood = first-In p db.invitations i e;
                            by_invitee = y;
                            of_event = ground (arith, hit);
                            of_path = same;
                            returned = refl;
                            rows =
                                subst
                                  (λ k. AreAnswered k (status_of d) now db.invitations (
                                    update_where (λ (x : Invitation). x.id == i.id)
                                      (set_answer d now) db.invitations))
                                  same (answered_rows i.id d now db.invitations);
                            rest = refl;
                          }),
                    ),
                  ))
          ]
    ]
