-- ===== src/Groups.antt =====
-- src/routers/eligible_groups.py: the groups for which the caller may create an event. The order by
-- name is left out.
pub mod Picked
use checkin_service.Base.{
  ℕ, Bool, true, false, not, ◌&&◌, ◌||◌, Option, none, some, List, [], ◌∷◌, length, select,
  count_where, ◌==◌, if◌then◌else◌, map,
}
use checkin_service.Text.{Text, text_eq, is_empty, is_falsy, or_else}
use checkin_service.Models.{Db, Group, GroupMember, Relationship, column_eq}
use checkin_service.Auth.Roles.{Actor, is_bypass}
use checkin_service.Auth.Gates.{digits_of, int_of_digits}
use checkin_service.Registrations.Gate.{is_active_member, is_consented}

pub record GroupRow : Type 0 where
  pub group_id : ℕ
  pub name : Text
  pub sport : Option Text
  pub school_id : Text
  pub member_count : ℕ

pub record Cohort : Type 0 where
  pub cohort_id : ℕ
  pub member_count : ℕ
  pub sport : Option Text

pub record Eligible : Type 0 where
  pub school_admin_groups : List GroupRow
  pub team_lead_cohort : Option Cohort

-- `str(user_id)`, or the empty text
abbrev pub uid_of : Actor → Text
uid_of actor = or_else actor.user_id []

-- An admin of a school sees the groups of it; anybody else those that they lead or have created.
unfoldable pub is_offered : Actor → Group → Bool
is_offered actor g =
    g.is_active
    && (if is_bypass actor && not (is_falsy actor.school_id)
        then text_eq g.school_id (or_else actor.school_id [])
        else (column_eq g.team_lead_user_id (uid_of actor)
            || text_eq g.created_by_user_id (uid_of actor)))

unfoldable pub is_active_in : ℕ → GroupMember → Bool
is_active_in group_id m = m.group_id == group_id && is_active_member m.status

unfoldable pub row_of : Db → Group → GroupRow
unfolding is_active_in
row_of db g = record {
  group_id = g.id;
  name = g.name;
  sport = g.sport;
  school_id = g.school_id;
  member_count = count_where (is_active_in g.id) db.members;
}

unfoldable pub school_groups : Actor → Db → List GroupRow
unfolding is_offered row_of
school_groups actor db =
    if not (is_empty (uid_of actor)) || is_bypass actor
    then map (row_of db) (select (is_offered actor) db.groups)
    else []

unfoldable pub has_accepted : Text → Relationship → Bool
has_accepted uid r = text_eq r.team_lead_user_id uid && is_consented r.consent_status

-- `{r.sport for r in accepted if r.sport}`, with repetitions
unfoldable pub sports_of : List Relationship → List Text
sports_of [] = []
sports_of (r ∷ rs) =
    let rest = sports_of rs in if is_falsy r.sport then rest else or_else r.sport [] ∷ rest

unfoldable pub all_equal : Text → List Text → Bool
all_equal s [] = true
all_equal s (t ∷ ts) = text_eq s t && all_equal s ts

-- the one member of a set of one
unfoldable pub sole : List Text → Option Text
unfolding all_equal
sole [] = none
sole (s ∷ ss) = if all_equal s ss then some s else none

unfoldable pub cohort_of : Text → List Relationship → Option Cohort
unfolding sports_of sole
cohort_of uid [] = none
cohort_of uid (r ∷ rs) = some (record {
  cohort_id = if is_empty (digits_of uid) then 0 else int_of_digits 0 (digits_of uid);
  member_count = length (r ∷ rs);
  sport = sole (sports_of (r ∷ rs));
})

unfoldable pub list_eligible_groups : Actor → Db → Eligible
unfolding school_groups has_accepted cohort_of
list_eligible_groups actor db = record {
  school_admin_groups = school_groups actor db;
  team_lead_cohort =
      if is_empty (uid_of actor)
      then none
      else cohort_of (uid_of actor) (select (has_accepted (uid_of actor)) db.relationships);
}
