-- ===== src/Auth/Gates.antt =====
-- The gates of src/auth.py: who may act on what.
use checkin_service.Base.{
  ℕ, ◌+◌, ◌*◌, ◌-◌, Bool, false, not, ◌&&◌, ◌||◌, none, some, [], ◌∷◌, ◌++◌, leb, ◌==◌, first,
  if◌then◌else◌, Result, ok, err, raise_if, require, http, permission_denied, tenant_required,
  school_binding_required, not_group_owner, not_event_owner, group_not_found,
}
use checkin_service.Text.{Text, txt, text_eq, member, is_empty, is_falsy, or_else}
use checkin_service.Models.{Db, Group, GroupKind, school_admin_group, team_lead_cohort}
use checkin_service.Auth.Roles.{
  Actor, actor_role, is_bypass, event_creator_roles, school_bound_roles,
}

-- `actor_user_id is not None and str(actor_user_id) == target`
unfoldable pub is_user : Actor → Text → Bool
is_user actor target = elim actor.user_id [ none ↦ false | some uid ↦ text_eq uid target ]

-- `actor.get("school_id") and str(actor["school_id"]) == school`
unfoldable pub is_in_school : Actor → Text → Bool
is_in_school actor school = elim actor.school_id [
  | none ↦ false
  | some sid ↦ not (is_empty sid) && text_eq sid school
]

unfoldable pub require_admin : Actor → Result Actor
require_admin actor = if is_bypass actor then ok actor else err (http 403 permission_denied)

unfoldable pub assert_self_or_admin : Actor → Text → Result (Unit {0})
unfolding is_user
assert_self_or_admin actor target =
    if is_bypass actor then ok tt else require (is_user actor target) (http 403 permission_denied)

unfoldable pub require_event_creator : Actor → Result Actor
require_event_creator actor =
    if member (actor_role actor) event_creator_roles
    then ok actor
    else err (http 403 permission_denied)

-- `f"user:{user_id}"`
abbrev pub personal_namespace : Text → Text
personal_namespace uid = txt "user:" ++ uid

unfoldable pub resolve_event_tenant : Actor → Result Text
resolve_event_tenant actor =
    if is_falsy actor.school_id
    then if is_falsy actor.user_id
      then err (http 403 tenant_required)
      else ok (personal_namespace (or_else actor.user_id []))
    else ok (or_else actor.school_id [])

unfoldable pub assert_school_only_eligible : Actor → Result (Unit {0})
assert_school_only_eligible actor =
    raise_if (is_falsy actor.school_id || not (member (actor_role actor) school_bound_roles))
      (http 403 school_binding_required)

-- `"".join(c for c in uid if c.isdigit())`, at the ASCII digits
unfoldable pub digits_of : Text → Text
digits_of [] = []
digits_of (c ∷ s) = let rest = digits_of s in if leb b'0' c && leb c b'9' then c ∷ rest else rest

-- `int(digits)`, of a text of ASCII digits
unfoldable pub int_of_digits : ℕ → Text → ℕ
int_of_digits n [] = n
int_of_digits n (c ∷ s) = int_of_digits (n * 10 + (c - b'0')) s

-- The caller is the group's team lead or its creator.
unfoldable pub is_lead : Text → Group → Bool
is_lead uid g =
    not (is_empty uid)
    && (text_eq uid (or_else g.team_lead_user_id []) || text_eq uid g.created_by_user_id)

-- Returns the `school_id` for the row of a `group_only` event.
unfoldable pub assert_group_event_eligible : Actor → GroupKind → ℕ → Db → Result Text
unfolding is_lead is_in_school digits_of int_of_digits
assert_group_event_eligible actor school_admin_group group_id db =
    let uid = or_else actor.user_id [] in
    elim (first (λ (g : Group). g.id == group_id && g.is_active) db.groups) [
      | none ↦ err (http 404 group_not_found)
      | some g ↦
          if is_lead uid g || (is_bypass actor && is_in_school actor g.school_id)
          then ok g.school_id
          else err (http 403 not_group_owner)
    ]
assert_group_event_eligible actor team_lead_cohort group_id db =
    let uid = or_else actor.user_id [] in
    let digits = digits_of uid in
    if is_empty digits || not (int_of_digits 0 digits == group_id)
    then err (http 403 not_group_owner)
    else ok (personal_namespace uid)

unfoldable pub assert_event_owner_or_admin : Actor → Text → Text → Result (Unit {0})
unfolding is_user is_in_school
assert_event_owner_or_admin actor owner school =
    if is_user actor owner
    then ok tt
    else if is_bypass actor && is_in_school actor school
    then ok tt
    else if is_bypass actor && text_eq (actor_role actor) (txt "service")
    then ok tt
    else err (http 403 not_event_owner)
