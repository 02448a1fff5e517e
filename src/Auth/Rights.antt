-- ===== src/Auth/Rights.antt =====
-- What the gates of src/auth.py admit.
use checkin_service.Base.{◌≡◌, refl, true, false, Option, [], ok, arith}
use checkin_service.Text.{Text, member, is_falsy}
use checkin_service.Auth.Roles.{Actor, actor_role, event_creator_roles, school_bound_roles}
use checkin_service.Auth.Gates.{assert_school_only_eligible, require_event_creator}
use checkin_service.Auth.Bearer.{AuthConfig, Credentials, require_bearer_actor}

subset :
    (role : Text) → member role school_bound_roles ≡ true → member role event_creator_roles ≡ true
unfolding member
subset role h = ground arith

-- An actor who may scope an event to a school has a school, and a role that may create events.
pub assert_school_only_eligible-creator :
    (actor : Actor)
    → assert_school_only_eligible actor ≡ ok tt
    → (is_falsy actor.school_id ≡ false) × (require_event_creator actor ≡ ok actor)
unfolding assert_school_only_eligible require_event_creator
assert_school_only_eligible-creator actor h =
    let role : member (actor_role actor) school_bound_roles ≡ true = ground arith in
    let role' = subset (actor_role actor) role in (ground arith, ground arith)

-- Where no service token is configured, the service headers decide nothing.
pub require_bearer_actor-unconfigured :
    (config : AuthConfig) (creds : Option Credentials) (token token' name name' : Option Text)
    → config.internal_service_token ≡ []
    → require_bearer_actor config creds token name ≡ require_bearer_actor config creds token' name'
unfolding require_bearer_actor
require_bearer_actor-unconfigured config creds token token' name name' h = rw h refl
