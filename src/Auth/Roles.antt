-- ===== src/Auth/Roles.antt =====
-- The role sets of src/auth.py, the copy in src/routers/registrations.py, and the actor.
use checkin_service.Base.{Bool, Option, some, List, [], ◌∷◌, ◌++◌}
use checkin_service.Text.{Text, txt, member, strip, lower, or_else}

-- The dictionary that `require_bearer_actor` returns.
pub record Actor : Type 0 where
  pub user_id : Option Text
  pub role : Text
  pub canonical_role : Text
  pub school_id : Option Text

abbrev pub admin_bypass_roles : List Text
admin_bypass_roles =
    txt "admin"
    ∷ txt "platform_admin"
    ∷ txt "platform_ops"
    ∷ txt "platform_system_admin"
    ∷ txt "platform_support_admin"
    ∷ txt "super_admin"
    ∷ txt "nilbx_admin"
    ∷ txt "service"
    ∷ txt "school_admin"
    ∷ txt "college_school_nil_admin"
    ∷ txt "hs_school_nil_admin"
    ∷ txt "compliance_officer"
    ∷ []

abbrev author_roles : List Text
author_roles =
    txt "creator"
    ∷ txt "student_creator"
    ∷ txt "brand"
    ∷ txt "agency"
    ∷ txt "coach"
    ∷ txt "college_coach"
    ∷ txt "hs_coach"
    ∷ txt "college_team_lead"
    ∷ txt "hs_team_lead"
    ∷ txt "team_lead"
    ∷ txt "lawyer"
    ∷ txt "governing_body_admin"
    ∷ txt "conference_admin"
    ∷ txt "nfhs_admin"
    ∷ txt "state_association_admin"
    ∷ txt "district_admin"
    ∷ txt "college_governing_body"
    ∷ txt "college_conference"
    ∷ txt "hs_nfhs"
    ∷ txt "hs_state_association"
    ∷ txt "hs_state_district"
    ∷ txt "chapter_president"
    ∷ []

abbrev pub event_creator_roles : List Text
event_creator_roles = admin_bypass_roles ++ author_roles

abbrev pub school_bound_roles : List Text
school_bound_roles =
    txt "school_admin"
    ∷ txt "college_school_nil_admin"
    ∷ txt "hs_school_nil_admin"
    ∷ txt "compliance_officer"
    ∷ txt "coach"
    ∷ txt "college_coach"
    ∷ txt "hs_coach"
    ∷ txt "college_team_lead"
    ∷ txt "hs_team_lead"
    ∷ txt "team_lead"
    ∷ txt "chapter_president"
    ∷ txt "governing_body_admin"
    ∷ txt "conference_admin"
    ∷ txt "nfhs_admin"
    ∷ txt "state_association_admin"
    ∷ txt "district_admin"
    ∷ txt "college_governing_body"
    ∷ txt "college_conference"
    ∷ txt "hs_nfhs"
    ∷ txt "hs_state_association"
    ∷ txt "hs_state_district"
    ∷ []

-- `_ADMIN_ROLES` of src/routers/registrations.py
abbrev pub registration_admin_roles : List Text
registration_admin_roles =
    txt "admin"
    ∷ txt "platform_admin"
    ∷ txt "platform_ops"
    ∷ txt "platform_system_admin"
    ∷ txt "platform_support_admin"
    ∷ txt "super_admin"
    ∷ txt "nilbx_admin"
    ∷ txt "service"
    ∷ txt "school_admin"
    ∷ txt "college_school_nil_admin"
    ∷ txt "hs_school_nil_admin"
    ∷ txt "compliance_officer"
    ∷ []

-- `_canonicalize_role(actor.get("canonical_role") or actor.get("role"))`
unfoldable pub actor_role : Actor → Text
actor_role actor = lower (strip (or_else (some actor.canonical_role) actor.role))

-- `role in ADMIN_BYPASS_ROLES`
unfoldable pub is_bypass : Actor → Bool
is_bypass actor = member (actor_role actor) admin_bypass_roles

-- `_is_admin` of src/routers/registrations.py
unfoldable pub is_admin : Actor → Bool
is_admin actor =
    member (lower (strip (or_else (some actor.canonical_role) actor.role))) registration_admin_roles
