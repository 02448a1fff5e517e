-- ===== src/Env.antt =====
-- The environment of the process: `os.getenv`, and the helpers of src/services/geo_verification.py
-- that read it. `float` of a text is a parameter.
use checkin_service.Base.{Bool, Option, none, some, [], ◌∷◌, if◌then◌else◌}
use checkin_service.Text.{Text, txt, member, strip, lower, is_empty}
use checkin_service.Text.Numerals.{ℤ, parse_int}
use checkin_service.Models.{Float}

-- The value of each variable that is set.
abbrev pub Environment : Type 0
Environment = Text → Option Text

-- `os.getenv(key, default)`
unfoldable pub getenv : Environment → Text → Text → Text
getenv env key default = elim (env key) [ none ↦ default | some v ↦ v ]

unfoldable pub env_bool : Environment → Text → Text → Bool
unfolding getenv
env_bool env key default =
    member (lower (strip (getenv env key default)))
      (txt "1" ∷ txt "true" ∷ txt "yes" ∷ txt "on" ∷ [])

unfoldable pub env_int : Environment → Text → ℤ → ℤ
unfolding getenv
env_int env key default =
    let raw = strip (getenv env key []) in
    if is_empty raw then default else (elim (parse_int raw) [ none ↦ default | some value ↦ value ])

unfoldable pub env_float : (Text → Option Float) → Environment → Text → Float → Float
unfolding getenv
env_float parse_float env key default =
    let raw = strip (getenv env key []) in
    if is_empty raw
    then default
    else (elim (parse_float raw) [ none ↦ default | some value ↦ value ])

unfoldable pub is_dev : Environment → Bool
unfolding getenv
is_dev env =
    member (lower (strip (getenv env (txt "ENVIRONMENT") (txt "development"))))
      (txt "development" ∷ txt "dev" ∷ txt "local" ∷ txt "test" ∷ [])
