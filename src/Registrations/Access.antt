-- ===== src/Registrations/Access.antt =====
-- Who may register: the visibility gates of POST /events/{id}/register against a description of the tiers.
mod Rows
pub use Rows.{IsInvitation, IsMembership, IsFollower}
use mathlib.Core.Path.{subst}
use Rows.{is_invited_iff, is_member_iff, is_in_cohort_iff, column_eq_refl}
use checkin_service.Base.{
  ℕ, ◌≡◌, refl, Bool, true, false, not, ◌&&◌, ◌||◌, Option, none, some, List, arith, first,
  first-In, first-true, first_finds, In, is_none, ◌==◌, ==_iff, ok, err, Result, ◌>>=◌, ◌>>◌,
  require, if◌then◌else◌, Bool-cases, Option-cases, inl, inr, ◌⊎◌, ◌↔◌, sym,
}
use checkin_service.Text.{Text, text_eq, is_falsy, or_else}
use checkin_service.Text.Equality.{text_eq_iff, text_eq_refl}
use checkin_service.Models.{
  Db, DateTime, Event, Invitation, InvitationStatus, GroupMember, MemberStatus, Relationship,
  Consent, Visibility, public, school_only, unlisted, invite_only, group_only, GroupKind,
  school_admin_group, team_lead_cohort, column_eq,
}
use checkin_service.Auth.Roles.{Actor, is_admin, is_bypass}
use checkin_service.Auth.Gates.{is_user, assert_self_or_admin}
use checkin_service.Registrations.Gate.{
  accepts, belongs, follows, is_owner, is_accepted, is_invited, is_active_member, is_consented,
  is_member, is_in_cohort, group_gate, shares_school, visibility_gate, is_open,
  resolve_event_or_404, register_gate, target_user, validate_idem_key,
}

-- The cases in which a caller may join an event of each tier, by the rows of the tables. Of a cohort
-- event the code asks for a relationship with any team lead, not the one of the event.
abbrev pub MayJoin : Db → Actor → Event → Text → Visibility → Type 0
MayJoin db actor event target public = Unit
MayJoin db actor event target unlisted = Unit
MayJoin db actor event target school_only =
    (is_owner actor event ≡ true) ⊎ (is_admin actor ≡ true) ⊎ (shares_school actor event ≡ true)
MayJoin db actor event target invite_only =
    (is_owner actor event ≡ true)
    ⊎ (is_admin actor ≡ true)
    ⊎ ((i : Invitation) × IsInvitation db event.id target i)
MayJoin db actor event target group_only =
    (is_owner actor event ≡ true)
    ⊎ (is_admin actor ≡ true)
    ⊎ ((g : ℕ) × (event.group_kind ≡ some school_admin_group)
        × (event.group_id ≡ some g)
        × ((m : GroupMember) × IsMembership db g target m))
    ⊎ ((event.group_kind ≡ some team_lead_cohort) × ((r : Relationship) × IsFollower db target r))

group_gate→MayJoin :
    (db : Db) (actor : Actor) (event : Event) (target : Text)
    → group_gate db event target ≡ ok tt
    → MayJoin db actor event target group_only
unfolding group_gate is_member
group_gate→MayJoin db actor event target h = elim (Option-cases event.group_kind) [
  | inl k ↦ absurd (ground arith)
  | inr (school_admin_group, k) ↦ elim (Option-cases event.group_id) [
    | inl g ↦ absurd (ground arith)
    | inr (g, e) ↦ inr (inr (inl (g, k, e, (is_member_iff db target g).0 (ground arith))))
  ]
  | inr (team_lead_cohort, k) ↦ inr (inr (inr (k, (is_in_cohort_iff db target).0 (ground arith))))
]

MayJoin→group_gate :
    (db : Db) (actor : Actor) (event : Event) (target : Text)
    → MayJoin db actor event target group_only
    → is_owner actor event ≡ false
    → is_admin actor ≡ false
    → group_gate db event target ≡ ok tt
unfolding group_gate
MayJoin→group_gate db actor event target (inl o) no_owner no_admin = cc
MayJoin→group_gate db actor event target (inr (inl a)) no_owner no_admin = cc
MayJoin→group_gate db actor event target (inr (inr (inl (g, k, e, m)))) no_owner no_admin =
    rw k (rw e (rw ((is_member_iff db target g).1 m)))
MayJoin→group_gate db actor event target (inr (inr (inr (k, r)))) no_owner no_admin =
    rw k (rw ((is_in_cohort_iff db target).1 r))

MayJoin→invited :
    (db : Db) (actor : Actor) (event : Event) (target : Text)
    → MayJoin db actor event target invite_only
    → is_owner actor event ≡ false
    → is_admin actor ≡ false
    → is_invited db event.id target ≡ true
MayJoin→invited db actor event target (inl o) no_owner no_admin = cc
MayJoin→invited db actor event target (inr (inl a)) no_owner no_admin = cc
MayJoin→invited db actor event target (inr (inr i)) no_owner no_admin =
    (is_invited_iff db target event.id).1 i

privileged : {P : Type 0} (b c : Bool) → (b || c) ≡ true → (b ≡ true) ⊎ (c ≡ true) ⊎ P
privileged true c h = inl refl
privileged false c h = inr (inl h)

pub visibility_gate_iff :
    (db : Db) (actor : Actor) (event : Event) (target : Text) (v : Visibility)
    → (visibility_gate db actor event target v ≡ ok tt) ↔ MayJoin db actor event target v
unfolding visibility_gate
visibility_gate_iff db actor event target public = (λ h. tt, λ h. refl)
visibility_gate_iff db actor event target unlisted = (λ h. tt, λ h. refl)
visibility_gate_iff db actor event target school_only = (λ h. ground arith, λ h. ground arith)
visibility_gate_iff db actor event target invite_only =
    elim (Bool-cases (is_owner actor event || is_admin actor)) [
      | inl e ↦ (λ h. privileged (is_owner actor event) (is_admin actor) e, λ h. rw e)
      | inr e ↦ (
        λ h. inr (inr ((is_invited_iff db target event.id).0 (ground arith))),
        λ h. rw e (rw (MayJoin→invited db actor event target h (ground arith) (ground arith))),
      )
    ]
visibility_gate_iff db actor event target group_only =
    elim (Bool-cases (is_owner actor event || is_admin actor)) [
      | inl e ↦ (
        λ h. elim (Bool-cases (is_owner actor event)) [
          | inl o ↦ inl o
          | inr n ↦ inr (inl (ground arith))
        ],
        λ h. rw e,
      )
      | inr e ↦ (
        λ h. group_gate→MayJoin db actor event target (ground arith),
        λ h. rw e (MayJoin→group_gate db actor event target h (ground arith) (ground arith)),
      )
    ]
