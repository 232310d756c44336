-- ===== src/MinimalApp/Started.antt =====
-- examples/minimal-app/main.go: a configuration that is accepted starts the application, and the pool is
-- closed at its end.
use stumpfworks_framework.Base.{
  ℕ, ◌≡◌, ◌≢◌, ◌↔◌, ◌⊎◌, inl, inr, refl, true, false, List, [], ◌∷◌, ◌++◌, map, Option, none, some,
  Bytes, Bytes-discrete, is_empty, insert, codes, All, Result, ok, err, arith, is_positive,
  is_positive_iff, not_negative, Result-cases,
}
use stumpfworks_framework.Config.{Config}
use stumpfworks_framework.Config.Operable.{IsOperable}
use stumpfworks_framework.Postgres.{Options as PoolOptions, Error as PoolError}
use stumpfworks_framework.App.{
  App, World, Effect, close, run, use_resource, use_http, backwards, new as new_app,
}
use stumpfworks_framework.App.Lifecycle.{use_all, use_all_http, IsNoClose, IsGraceful, run_closes}
use stumpfworks_framework.Web.Http.{Handler, reply}
use stumpfworks_framework.Web.Health.{Checks, register, new as new_checks}
use stumpfworks_framework.Web.Concurrency.{Limiter, new_limiter, to_nat}
use stumpfworks_framework.MinimalApp.{
  application_failed, database_unavailable, app_options, pool_options, Setup, with_database, set_up,
  main,
}

abbrev base : Config → Bytes → App
base c version = record { options = app_options c version; middleware = []; resources = [] }

abbrev limiter_of : Config → Limiter
limiter_of c = record {
  maximum = to_nat c.http.max_concurrent_requests;
  timed = is_positive c.http.queue_timeout;
}

abbrev checks_of : Option ℕ → Checks
checks_of none = new_checks
checks_of (some p) = record new_checks { checks = (codes "postgres", p) ∷ [] }

abbrev pub pools : Option ℕ → List ℕ
pools none = []
pools (some p) = p ∷ []

-- The pool is closed at the end, and nothing before.
abbrev pub IsClosing : Option ℕ → List Effect → Type 0
IsClosing p effects =
    (served : List Effect) × All IsNoClose served
    × (effects ≡ served ++ map (λ r. close r) (backwards (pools p)))

new_app_accepts :
    (c : Config) (version : Bytes)
    → IsOperable c
    → new_app (app_options c version) ≡ ok (base c version)
unfolding new_app Bytes-discrete
new_app_accepts c version h =
    let given : is_empty c.http.address ≡ false = ground (arith, h.address) in
    rw
      (
        given,
        (is_positive_iff c.http.read_timeout).1 h.read_timeout,
        (is_positive_iff c.http.read_header_timeout).1 h.read_header_timeout,
        (is_positive_iff c.http.write_timeout).1 h.write_timeout,
        (is_positive_iff c.http.idle_timeout).1 h.idle_timeout,
        (is_positive_iff c.shutdown_timeout).1 h.shutdown_timeout,
        (is_positive_iff c.http.max_header_bytes).1 h.max_header_bytes,
      )
      refl

new_limiter_accepts :
    (c : Config)
    → IsOperable c
    → new_limiter c.http.max_concurrent_requests c.http.queue_timeout ≡ ok (limiter_of c)
unfolding new_limiter
new_limiter_accepts c h =
    rw
      (
        (is_positive_iff c.http.max_concurrent_requests).1 h.max_concurrent_requests,
        not_negative c.http.queue_timeout h.queue_timeout,
      )
      refl

module _ (open_database : PoolOptions → Result PoolError ℕ) where
  -- No database is configured, or this pool is opened.
  abbrev pub HasPool : Config → Option ℕ → Type 0
  HasPool c none = c.postgres.url ≡ []
  HasPool c (some p) = (c.postgres.url ≢ []) × (open_database (pool_options c) ≡ ok p)

  with_database_accepts :
      (c : Config) (version : Bytes) (p : Option ℕ)
      → HasPool c p
      → with_database open_database c (base c version)
        ≡ ok (record (base c version) { resources = pools p }, checks_of p)
  unfolding with_database use_resource register insert Bytes-discrete
  with_database_accepts c version none h = rw h refl
  with_database_accepts c version (some p) h =
      let given : is_empty c.postgres.url ≡ false = ground (arith, h.0) in rw (given, h.1) refl

module _ (open_database : PoolOptions → Result PoolError ℕ) (chained : Handler → Handler)
    (limited : Limiter → Handler → Handler) where
  abbrev complete_app : Config → Bytes → Option ℕ → App
  complete_app c version p = record {
    options = app_options c version;
    middleware = chained ∷ limited (limiter_of c) ∷ [];
    resources = pools p;
  }

  abbrev complete_setup : Config → Bytes → Option ℕ → Setup
  complete_setup c version p = record {
    app = complete_app c version p;
    checks = checks_of p;
    limiter = limiter_of c;
  }

  set_up_accepts :
      (c : Config) (version : Bytes) (p : Option ℕ)
      → IsOperable c
      → HasPool open_database c p
      → set_up open_database chained limited c version ≡ ok (complete_setup c version p)
  unfolding set_up use_http
  set_up_accepts c version p h pool =
      rw
        (
          new_app_accepts c version h,
          with_database_accepts open_database c version p pool,
          new_limiter_accepts c h,
        )
        refl

  resources_added :
      (c : Config) (version : Bytes) (p : Option ℕ)
      → use_all (pools p) (base c version) ≡ ok (record (base c version) { resources = pools p })
  unfolding use_all use_resource
  resources_added c version none = refl
  resources_added c version (some p) = refl

  middleware_added :
      (c : Config) (version : Bytes) (p : Option ℕ)
      → use_all_http
          (chained ∷ limited (limiter_of c) ∷ [])
          (record (base c version) { resources = pools p })
        ≡ ok (complete_app c version p)
  unfolding use_all_http use_http
  middleware_added c version p = refl

  -- With a configuration that `Validate` accepts, and no database configured or one that opens, `main`
  -- comes to the run of the application: it returns exactly if the run listens and ends gracefully,
  -- and exits with the application's error else. The pool is closed at the end in either case, after
  -- all else that the run does.
  pub main_runs :
      (c : Config) (version : Bytes) (p : Option ℕ) (w : World)
      → IsOperable c
      → HasPool open_database c p
      → let result = main open_database chained limited (ok c) version w in
        IsClosing p result.1
        × ((result.0 ≡ none) ↔ IsGraceful w)
        × ((result.0 ≡ none) ⊎ (result.0 ≡ some application_failed))
  unfolding main
  main_runs c version p w h pool =
      let app = complete_app c version p in
      let (closing, graceful, _) =
        run_closes (pools p) (chained ∷ limited (limiter_of c) ∷ []) (app_options c version)
          (base c version) (record (base c version) { resources = pools p }) app w
          (λ r seen. reply []) (new_app_accepts c version h) (resources_added c version p)
          (middleware_added c version p) in
      let ready = set_up_accepts c version p h pool in
      elim (Result-cases (run true w app).result) [
        | inl (u, done) ↦
            rw (main, ready, done) (closing, (λ e. graceful.0 done, λ g. refl), inl refl)
        | inr (e, failed) ↦
            rw (main, ready, failed)
              (closing, (λ i. cc, λ g. absurd (let i = graceful.1 g in cc)), inr refl)
      ]

  -- If a database is configured and does not open, `main` exits before the application listens.
  main_needs_database :
      (c : Config) (version : Bytes) (w : World) (e : PoolError)
      → IsOperable c
      → c.postgres.url ≢ []
      → open_database (pool_options c) ≡ err e
      → main open_database chained limited (ok c) version w ≡ (some database_unavailable, [])
  unfolding main set_up with_database
  main_needs_database c version w e h given closed =
      let configured : is_empty c.postgres.url ≡ false = ground (arith, given) in
      let stops : set_up open_database chained limited c version ≡ err database_unavailable =
        rw (set_up, new_app_accepts c version h, with_database, configured, closed) refl in
      rw (main, stops) refl
