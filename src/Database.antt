-- ===== src/Database.antt =====
-- src/database.py: the address of the database and the options of its connections, as functions of the
-- environment. `is_file` is the file system's answer.
use checkin_service.Base.{ℕ, Bool, not, ◌&&◌, none, some, [], ◌∷◌, ◌++◌, if◌then◌else◌}
use checkin_service.Text.{Text, txt, member, lower, strip, is_empty, or_else, contains}
use checkin_service.Env.{Environment, getenv}

-- `os.getenv("DB_USER") or os.getenv("DB_USERNAME") or "root"`
unfoldable pub db_user : Environment → Text
db_user env = or_else (env (txt "DB_USER")) (or_else (env (txt "DB_USERNAME")) (txt "root"))

unfoldable pub build_database_url : Environment → Text
unfolding db_user
build_database_url env =
    let test_url = strip (getenv env (txt "CHECKIN_TEST_DB_URL") []) in
    if is_empty test_url
    then txt "mysql+pymysql://"
      ++ db_user env
      ++ txt ":"
      ++ getenv env (txt "DB_PASSWORD") []
      ++ txt "@"
      ++ getenv env (txt "DB_HOST") (txt "localhost")
      ++ txt ":"
      ++ getenv env (txt "DB_PORT") (txt "3306")
      ++ txt "/"
      ++ getenv env (txt "DB_NAME") (txt "nilbx_db")
    else test_url

-- No argument, a context without checks of the server, or one that verifies it against the file.
pub data ConnectArgs : Type 0 where
  no_args unverified : ConnectArgs
  verified : Text → ConnectArgs

unfoldable pub is_local : Environment → Bool
is_local env =
    member (lower (strip (getenv env (txt "DB_HOST") [])))
      ([] ∷ txt "localhost" ∷ txt "127.0.0.1" ∷ txt "mysql" ∷ txt "nilbx-mysql" ∷ [])
    && member (lower (strip (getenv env (txt "ENVIRONMENT") (txt "development"))))
        (txt "development" ∷ txt "local" ∷ txt "test" ∷ [])

unfoldable pub ssl_enabled : Environment → Bool
unfolding is_local
ssl_enabled env = elim (env (txt "DB_SSL_ENABLED")) [
  | none ↦ not (is_local env)
  | some raw ↦ member (lower (strip raw)) (txt "1" ∷ txt "true" ∷ txt "yes" ∷ txt "on" ∷ [])
]

unfoldable pub mysql_connect_args : (Text → Bool) → Environment → Text → ConnectArgs
unfolding ssl_enabled
mysql_connect_args is_file env url =
    let path = strip (getenv env (txt "DB_SSL_CA_PATH") (txt "/etc/ssl/certs/global-bundle.pem")) in
    if contains (txt "sqlite") url
    then no_args
    else if not (ssl_enabled env)
    then no_args
    else if not (is_empty path) && is_file path
    then verified path
    else unverified

-- One shared connection, or a pool with its size, overflow, timeout and age in seconds.
pub data EngineKwargs : Type 0 where
  static_pool : EngineKwargs
  queue_pool : ConnectArgs → ℕ → ℕ → ℕ → ℕ → EngineKwargs

unfoldable pub build_engine_kwargs : (Text → Bool) → Environment → EngineKwargs
build_engine_kwargs is_file env =
    let url = build_database_url env in
    if contains (txt "sqlite") url
    then static_pool
    else queue_pool (mysql_connect_args is_file env url) 5 10 30 3600
