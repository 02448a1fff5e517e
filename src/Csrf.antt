-- ===== src/Csrf.antt =====
-- The CSRF middleware of src/main.py.
pub mod Forwarded
use checkin_service.Base.{
  Bool, true, false, not, ◌&&◌, ◌||◌, Option, none, some, List, [], ◌∷◌, if◌then◌else◌,
}
use checkin_service.Text.{Text, txt, text_eq, member, lower, upper, is_empty, is_falsy, or_else}
use checkin_service.Env.{Environment, getenv}
use checkin_service.Hashing.{compare_digest}

-- _COOKIE_AUTH_ENABLED and _CSRF_PROTECTION_ENABLED
unfoldable pub is_enabled : Environment → Bool
is_enabled env =
    text_eq (lower (getenv env (txt "CSRF_PROTECTION_ENABLED") (txt "true"))) (txt "true")
    && text_eq (lower (getenv env (txt "COOKIE_AUTH_ENABLED") (txt "true"))) (txt "true")

-- _SESSION_COOKIE_NAME and _CSRF_COOKIE_NAME
unfoldable pub session_cookie_name : Environment → Text
session_cookie_name env = getenv env (txt "SESSION_COOKIE_NAME") (txt "nilbx_session")

unfoldable pub csrf_cookie_name : Environment → Text
csrf_cookie_name env = getenv env (txt "CSRF_COOKIE_NAME") (txt "nilbx_csrf")

-- _CSRF_EXEMPT_PATHS
abbrev pub exempt_paths : List Text
exempt_paths = txt "/health" ∷ txt "/docs" ∷ txt "/openapi.json" ∷ txt "/redoc" ∷ []

abbrev pub safe_methods : List Text
safe_methods = txt "GET" ∷ txt "HEAD" ∷ txt "OPTIONS" ∷ []

pub record Incoming : Type 0 where
  pub method : Text
  pub path : Text
  pub cookies : Text → Option Text
  pub csrf_header : Option Text

-- The request goes on, or is answered with 403, or `compare_digest` raises.
pub data Dispatch : Type 0 where
  forward forbid fault : Dispatch

unfoldable pub token_gate : Option Text → Option Text → Dispatch
token_gate cookie header =
    if is_falsy cookie || is_falsy header
    then forbid
    else elim (compare_digest (or_else cookie []) (or_else header [])) [
      | none ↦ fault
      | some same ↦ if same then forward else forbid
    ]

unfoldable pub dispatch : Environment → Incoming → Dispatch
unfolding token_gate is_enabled session_cookie_name csrf_cookie_name
dispatch env r =
    if not (is_enabled env)
    then forward
    else if member (upper r.method) safe_methods
    then forward
    else if member r.path exempt_paths
    then forward
    else if is_falsy (r.cookies (session_cookie_name env))
    then forward
    else token_gate (r.cookies (csrf_cookie_name env)) r.csrf_header
