-- ===== src/MinimalApp/Tests.antt =====
-- examples/minimal-app/main.go: the defaults with a database that opens, and with one that does not.
use stumpfworks_framework.Base.{
  ℕ, ◌≡◌, ◌↔◌, ◌⊎◌, refl, true, [], ◌∷◌, none, some, Bytes-discrete, insert, codes, Result, ok, err,
  arith,
}
use stumpfworks_framework.Config.{Config, defaults}
use stumpfworks_framework.Config.Operable.{IsOperable}
use stumpfworks_framework.Postgres.{Options, Error, connect_failed}
use stumpfworks_framework.App.{
  World, server_closed, log_started, log_stopping, shutdown, log_stopped, close, run, serve,
  close_resources, backwards, use_resource, use_http, new,
}
use stumpfworks_framework.App.Lifecycle.{IsGraceful}
use stumpfworks_framework.Web.Http.{Handler}
use stumpfworks_framework.Web.Health.{register}
use stumpfworks_framework.Web.Concurrency.{Limiter, new_limiter}
use stumpfworks_framework.MinimalApp.{
  database_unavailable, application_failed, with_database, set_up, main,
}
use stumpfworks_framework.MinimalApp.Started.{IsClosing, HasPool, main_runs}

abbrev config : Config
config = record defaults { postgres = record (defaults.postgres) { url = codes "u" } }

abbrev opens : Options → Result Error ℕ
opens o = ok 7

abbrev fails : Options → Result Error ℕ
fails o = err connect_failed

abbrev chained : Handler → Handler
chained next = next

abbrev limited : Limiter → Handler → Handler
limited limiter next = next

abbrev world : World
world = record { listens = true; ends_first = none; shuts_down = true; ends = server_closed }

code : Unit {0}
unfolding main set_up with_database use_resource use_http new register new_limiter run serve
    close_resources backwards insert Bytes-discrete
code = tt

ends_well :
    main opens chained limited (ok config) [] world
    ≡ (none, log_started ∷ log_stopping ∷ shutdown ∷ log_stopped ∷ close 7 ∷ [])
unfolding code
ends_well = refl

stops_early : main fails chained limited (ok config) [] world ≡ (some database_unavailable, [])
unfolding code
stops_early = refl

operable : IsOperable config
operable = record {
  address = λ e. cc;
  read_timeout = omega arith;
  read_header_timeout = omega arith;
  write_timeout = omega arith;
  idle_timeout = omega arith;
  max_header_bytes = omega arith;
  max_concurrent_requests = omega arith;
  queue_timeout = tt;
  shutdown_timeout = omega arith;
  pool = record {
    low = 1;
    high = 10;
    is_low = refl;
    is_high = refl;
    ordered = omega arith;
    some_connection = omega arith;
  };
  connect_timeout = omega arith;
  max_message_bytes = omega arith;
}

opened : HasPool opens config (some 7)
opened = (λ e. cc, refl)

main_runs_example :
    let result = main opens chained limited (ok config) [] world in
    IsClosing (some 7) result.1
    × ((result.0 ≡ none) ↔ IsGraceful world)
    × ((result.0 ≡ none) ⊎ (result.0 ≡ some application_failed))
main_runs_example = main_runs opens chained limited config [] (some 7) world operable opened
