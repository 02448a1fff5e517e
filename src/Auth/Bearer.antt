-- ===== src/Auth/Bearer.antt =====
-- `require_bearer_actor`: the internal service token, or a bearer token that auth-service validates.
use checkin_service.Base.{
  ℕ, Bool, true, false, not, ◌&&◌, ◌||◌, Option, none, some, List, [], ◌∷◌, ◌==◌, if◌then◌else◌,
  Result, ok, err, http, bearer_token_required, invalid_bearer_token, auth_unavailable,
  service_name_required, service_caller_not_allowlisted,
}
use checkin_service.Text.{Text, txt, text_eq, member, strip, lower, is_empty, is_falsy, or_else}
use checkin_service.Auth.Roles.{Actor}

-- What POST /validate-token answers: nothing (the request failed), or a status with a payload.
pub record Payload : Type 0 where
  pub user_id : Option Text
  pub id : Option Text
  pub canonical_role : Option Text
  pub role : Option Text
  pub school_id : Option Text

pub data AuthReply : Type 0 where
  unreachable : AuthReply
  reply : ℕ → Payload → AuthReply

-- The environment of the process: INTERNAL_SERVICE_TOKEN (stripped), and the set of the stripped
-- lower-case names in SERVICE_TOKEN_ALLOWED_CALLERS.
pub record AuthConfig : Type 0 where
  pub internal_service_token : Text
  pub allowed_callers : List Text
  pub validate_token : Text → AuthReply

pub record Credentials : Type 0 where
  pub scheme : Text
  pub credentials : Text

unfoldable pub actor_of_payload : Payload → Actor
actor_of_payload p =
    let role = lower (strip (or_else p.canonical_role (or_else p.role []))) in
    record {
      user_id = if is_falsy p.user_id then p.id else p.user_id;
      role = role;
      canonical_role = role;
      school_id = p.school_id;
    }

unfoldable pub validate_bearer : AuthConfig → Text → Result Actor
unfolding actor_of_payload
validate_bearer config token = elim (config.validate_token token) [
  | unreachable ↦ err (http 503 auth_unavailable)
  | reply status p ↦
      if not (status == 200) then err (http 401 invalid_bearer_token) else ok (actor_of_payload p)
]

abbrev pub service_actor : Actor
service_actor = record {
  user_id = none;
  role = txt "service";
  canonical_role = txt "service";
  school_id = none;
}

-- the truth value of the set of allowed callers
abbrev is_configured : List Text → Bool
is_configured [] = false
is_configured (c ∷ cs) = true

-- the branch of a caller that holds the service token
unfoldable pub service_call : AuthConfig → Option Text → Result Actor
service_call config x_service_name =
    let name = lower (strip (or_else x_service_name [])) in
    if is_empty name
    then err (http 403 service_name_required)
    else if is_configured config.allowed_callers && not (member name config.allowed_callers)
    then err (http 403 service_caller_not_allowlisted)
    else ok service_actor

unfoldable pub require_bearer_actor :
    AuthConfig → Option Credentials → Option Text → Option Text → Result Actor
unfolding validate_bearer service_call
require_bearer_actor config creds x_service_token x_service_name =
    if not (is_empty config.internal_service_token)
      && not (is_falsy x_service_token)
      && text_eq (or_else x_service_token []) config.internal_service_token
    then service_call config x_service_name
    else elim creds [
      | none ↦ err (http 401 bearer_token_required)
      | some c ↦
          if not (text_eq (lower c.scheme) (txt "bearer")) || is_empty c.credentials
          then err (http 401 bearer_token_required)
          else validate_bearer config c.credentials
    ]
