-- ===== src/Config/Production.antt =====
-- When the server starts in production, and how.
use be_py_eco.Prelude.{◌≡◌, Bool, true, false, some, List, is_some, Text, codes}
use be_py_eco.Config.Settings.{Environ, Settings, bool_or, db_url, base_with}

-- the variables that production needs are set, the database is one, and `DEBUG` is a boolean if it
-- is set
abbrev pub Configured : Environ → Type 0
Configured env =
    (is_some (env.variable (codes "SECRET_KEY")) ≡ true)
    × (is_some (db_url env (env.variable (codes "DATABASE_URL"))) ≡ true)
    × (is_some (bool_or env false (env.variable (codes "DEBUG"))) ≡ true)
    × (is_some (env.variable (codes "ALLOWED_HOSTS")) ≡ true)
    × (is_some (env.variable (codes "CSRF_TRUSTED_ORIGINS")) ≡ true)

-- no debugging, and what production does not start without
pub record Strict (env : Environ) (s : Settings) : Type 0 where
  pub debug_off : s.debug ≡ false
  pub given_key : env.variable (codes "SECRET_KEY") ≡ some s.secret_key
  pub given_database : db_url env (env.variable (codes "DATABASE_URL")) ≡ some s.database.given
  pub pooled : s.database.pool ≡ true
  pub given_hosts :
      (hosts : Text) × (env.variable (codes "ALLOWED_HOSTS") ≡ some hosts)
      × (s.allowed_hosts ≡ env.as_list hosts)
  pub given_origins :
      (origins : Text) × (env.variable (codes "CSRF_TRUSTED_ORIGINS") ≡ some origins)
      × (s.csrf_trusted_origins ≡ env.as_list origins)

-- what production makes of the settings that base.py reads
abbrev production_of : Environ → Text → List (Text × Text) → Bool → Text → Text → Settings
production_of env key given debug hosts origins = record (base_with env key given debug) {
  debug = false;
  allowed_hosts = env.as_list hosts;
  csrf_trusted_origins = env.as_list origins;
  database = record { given = given; pool = true };
}
