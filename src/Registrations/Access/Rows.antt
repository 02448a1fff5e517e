-- ===== src/Registrations/Access/Rows.antt =====
-- The three queries of the gates find a row exactly when a row as described is there.
use checkin_service.Base.{
  ℕ, ◌≡◌, true, Option, none, some, arith, first, first-In, first-true, first_finds, In,
  Option-cases, inl, inr, ◌↔◌,
}
use checkin_service.Text.{Text}
use checkin_service.Text.Equality.{text_eq_iff, text_eq_refl}
use checkin_service.Models.{
  Db, Invitation, InvitationStatus, GroupMember, MemberStatus, Relationship, Consent, column_eq,
}
use checkin_service.Registrations.Gate.{
  accepts, belongs, follows, is_accepted, is_invited, is_active_member, is_consented, is_member,
  is_in_cohort,
}

-- An invitation of `target` to the event that has been accepted.
pub record IsInvitation (db : Db) (event_id : ℕ) (target : Text) (i : Invitation) : Type 0 where
  pub is_row : In i db.invitations
  pub of_event : i.event_id ≡ event_id
  pub of_target : i.invitee_user_id ≡ target
  pub is_accepted : i.status ≡ InvitationStatus.accepted

pub record IsMembership (db : Db) (group_id : ℕ) (target : Text) (m : GroupMember) : Type 0 where
  pub is_row : In m db.members
  pub of_group : m.group_id ≡ group_id
  pub of_target : m.user_id ≡ some target
  pub is_active : m.status ≡ MemberStatus.active

pub record IsFollower (db : Db) (target : Text) (r : Relationship) : Type 0 where
  pub is_row : In r db.relationships
  pub of_target : r.member_user_id ≡ some target
  pub is_accepted : r.consent_status ≡ Consent.accepted

pub column_eq→eq : (o : Option Text) (s : Text) → column_eq o s ≡ true → o ≡ some s
unfolding column_eq
column_eq→eq none s h = cc
column_eq→eq (some t) s h = ground (arith, text_eq_iff t s)

pub column_eq_refl : (s : Text) → column_eq (some s) s ≡ true
unfolding column_eq
column_eq_refl s = text_eq_refl s

module _ (db : Db) (target : Text) where
  pub is_invited_iff :
      (event_id : ℕ)
      → (is_invited db event_id target ≡ true)
        ↔ ((i : Invitation) × IsInvitation db event_id target i)
  unfolding is_invited accepts is_accepted
  is_invited_iff event_id = (to, from)
    where
      to :
          is_invited db event_id target ≡ true
          → (i : Invitation) × IsInvitation db event_id target i
      to h = elim (Option-cases (first (accepts event_id target) db.invitations)) [
        | inl e ↦ absurd (ground arith)
        | inr (i, e) ↦
            let p = first-true (accepts event_id target) db.invitations i e in
            (
              i,
              record {
                is_row = first-In (accepts event_id target) db.invitations i e;
                of_event = ground arith;
                of_target = ground (arith, text_eq_iff i.invitee_user_id target);
                is_accepted = ground arith;
              },
            )
      ]

      from :
          ((i : Invitation) × IsInvitation db event_id target i)
          → is_invited db event_id target ≡ true
      from (i, v) =
          let found =
            first_finds (accepts event_id target) db.invitations i v.is_row
              (ground (arith, text_eq_iff i.invitee_user_id target)) in
          rw found.1

  pub is_member_iff :
      (group_id : ℕ)
      → (is_member db (some group_id) target ≡ true)
        ↔ ((m : GroupMember) × IsMembership db group_id target m)
  unfolding is_member belongs is_active_member
  is_member_iff group_id = (to, from)
    where
      to :
          is_member db (some group_id) target ≡ true
          → (m : GroupMember) × IsMembership db group_id target m
      to h = elim (Option-cases (first (belongs group_id target) db.members)) [
        | inl e ↦ absurd (ground arith)
        | inr (m, e) ↦
            let p = first-true (belongs group_id target) db.members m e in
            (
              m,
              record {
                is_row = first-In (belongs group_id target) db.members m e;
                of_group = ground arith;
                of_target = column_eq→eq m.user_id target (ground arith);
                is_active = ground arith;
              },
            )
      ]

      from :
          ((m : GroupMember) × IsMembership db group_id target m)
          → is_member db (some group_id) target ≡ true
      from (m, v) =
          let same : column_eq m.user_id target ≡ true = rw v.of_target (column_eq_refl target) in
          let found = first_finds (belongs group_id target) db.members m v.is_row (ground arith) in
          rw found.1

  pub is_in_cohort_iff :
      (is_in_cohort db target ≡ true) ↔ ((r : Relationship) × IsFollower db target r)
  unfolding is_in_cohort follows is_consented
  is_in_cohort_iff = (to, from)
    where
      to : is_in_cohort db target ≡ true → (r : Relationship) × IsFollower db target r
      to h = elim (Option-cases (first (follows target) db.relationships)) [
        | inl e ↦ absurd (ground arith)
        | inr (r, e) ↦
            let p = first-true (follows target) db.relationships r e in
            (
              r,
              record {
                is_row = first-In (follows target) db.relationships r e;
                of_target = column_eq→eq r.member_user_id target (ground arith);
                is_accepted = ground arith;
              },
            )
      ]

      from : ((r : Relationship) × IsFollower db target r) → is_in_cohort db target ≡ true
      from (r, v) =
          let same : column_eq r.member_user_id target ≡ true =
            rw v.of_target (column_eq_refl target) in
          let found = first_finds (follows target) db.relationships r v.is_row (ground arith) in
          rw found.1
