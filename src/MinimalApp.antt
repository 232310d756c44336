-- ===== src/MinimalApp.antt =====
-- examples/minimal-app/main.go: an application from its configuration to its end. What is logged is left
-- out, and so is the router, which gets the two handlers of web/health. The middleware of
-- `middleware.Chain` and the one for a limiter are arguments, and `open` is `postgres.Open`.
pub mod Started
pub mod Tests
use stumpfworks_framework.Base.{
  ℕ, true, List, [], ◌∷◌, Option, none, some, Bytes, is_empty, codes, if◌then◌else◌, Result, ok,
  err, ◌>>=◌,
}
use stumpfworks_framework.Config.{Config, Error as ConfigError}
use stumpfworks_framework.Postgres.{Options as PoolOptions, Error as PoolError}
use stumpfworks_framework.App.{
  Options as AppOptions, App, World, Effect, run, use_resource, use_http, new as new_app,
}
use stumpfworks_framework.Web.Http.{Handler}
use stumpfworks_framework.Web.Health.{Checks, register, new as new_checks}
use stumpfworks_framework.Web.Concurrency.{Limiter, new_limiter}

-- Where `main` calls `os.Exit`.
pub data Exit : Type 0 where
  configuration_invalid no_application database_unavailable no_resource no_check : Exit
  no_middleware no_limit no_limiter application_failed : Exit

abbrev pub or_exit {ℓ κ} : {E : Type ℓ} {A : Type κ} → Result E A → Exit → Result Exit A
or_exit (ok a) x = ok a
or_exit (err e) x = err x

abbrev pub app_options : Config → Bytes → AppOptions
app_options c version = record {
  name = codes "minimal-app";
  version = version;
  address = c.http.address;
  read_timeout = c.http.read_timeout;
  read_header_timeout = c.http.read_header_timeout;
  write_timeout = c.http.write_timeout;
  idle_timeout = c.http.idle_timeout;
  shutdown_timeout = c.shutdown_timeout;
  max_header_bytes = c.http.max_header_bytes;
  has_logger = true;
}

abbrev pub pool_options : Config → PoolOptions
pool_options c = record {
  url = c.postgres.url;
  max_connections = c.postgres.max_connections;
  min_connections = c.postgres.min_connections;
  connect_timeout = c.postgres.connect_timeout;
  max_message_bytes = c.postgres.max_message_bytes;
  allow_insecure = c.postgres.allow_insecure;
}

-- What `main` has put together before it runs the application.
pub record Setup : Type 0 where
  pub app : App
  pub checks : Checks
  pub limiter : Limiter

module _ (open_database : PoolOptions → Result PoolError ℕ) where
  -- The branch for a database, if one is configured. Its check stands for `database.Ping`.
  unfoldable pub with_database : Config → App → Result Exit (App × Checks)
  with_database c a = if is_empty c.postgres.url then ok (a, new_checks) else (do
    pool ← or_exit (open_database (pool_options c)) database_unavailable
    b ← or_exit (use_resource (some pool) a) no_resource
    h ← or_exit (register (codes "postgres") (some pool) new_checks) no_check
    ok (b, h))

module _ (open_database : PoolOptions → Result PoolError ℕ) (chained : Handler → Handler)
    (limited : Limiter → Handler → Handler) where
  -- `main` from the configuration to the run.
  unfoldable pub set_up : Config → Bytes → Result Exit Setup
  set_up c version = do
    a ← or_exit (new_app (app_options c version)) no_application
    b ← with_database open_database c a
    d ← or_exit (use_http (some chained) b.0) no_middleware
    limiter ← or_exit (new_limiter c.http.max_concurrent_requests c.http.queue_timeout) no_limit
    app ← or_exit (use_http (some (limited limiter)) d) no_limiter
    ok (record { app = app; checks = b.1; limiter = limiter })

  -- `main`: where it exits, `none` where it returns, and what the run of the application did.
  unfoldable pub main : Result ConfigError Config → Bytes → World → Option Exit × List Effect
  main loaded version w = elim loaded [
    | err e ↦ (some configuration_invalid, [])
    | ok c ↦ elim (set_up c version) [
      | err x ↦ (some x, [])
      | ok s ↦
          let ran = run true w s.app in
          elim ran.result [
            | err e ↦ (some application_failed, ran.effects)
            | ok u ↦ (none, ran.effects)
          ]
    ]
  ]
