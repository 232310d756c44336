-- ===== src/Oidc/Cache/Tests.antt =====
-- auth/oidc/cache_test.go: two rounds, of which the second fails.
use stumpfworks_framework.Base.{
  ℕ, map, true, false, ◌+◌, ◌*◌, ◌<◌, ◌≡◌, refl, ap, arith, List, [], ◌∷◌, none, some, ok, err, eqb,
  if◌then◌else◌, Bytes-discrete,
}
use stumpfworks_framework.Oidc.Transactions.{minute}
use stumpfworks_framework.Oidc.Cache.{
  ConfigurationCache, Discovery, Snapshot, Round, stale_configuration, refresh, get_current, status,
  run_refresh_loop, run,
}
use stumpfworks_framework.Oidc.Cache.Running.{run_survives_failure}
use stumpfworks_framework.Oidc.Cache.Vetted.{Fetch, to_option, round_of, IsOneOf, current-IsVetted}
use stumpfworks_framework.Oidc.Verify.Tests.{issuer, client_id, now}
use stumpfworks_framework.Oidc.Discovery.{Configuration, discover}
use stumpfworks_framework.Oidc.Discovery.Vetted.{IsVetted}
use stumpfworks_framework.Oidc.Discovery.Tests.{net, endpoint, configuration, discovers}

abbrev empty : ConfigurationCache ℕ
empty = record {
  issuer = issuer;
  client_id = client_id;
  client = none;
  max_age = 30 * minute;
  current = none;
  fetched_at = 0;
}

abbrev start : ℕ
start = 1000 * minute

-- Discovery that finds 8 for the issuer alone, and one that fails.
abbrev finds : Discovery ℕ
finds asked of_client client = if eqb asked issuer then some 8 else none

abbrev fails : Discovery ℕ
fails asked of_client client = none

abbrev rounds : List (Round ℕ)
rounds =
    record { discovers = finds; written_at = start; observed_at = start }
    ∷ record {
      discovers = fails;
      written_at = start + 10 * minute;
      observed_at = start + 10 * minute;
    }
    ∷ []

abbrev filled : ConfigurationCache ℕ
filled = record empty { current = some 8; fetched_at = start }

abbrev snapshot : Snapshot ℕ
snapshot = record { configuration = 8; valid_until = start + 30 * minute }

code : Unit {0}
unfolding run_refresh_loop refresh get_current status run Bytes-discrete
code = tt

looped : (run_refresh_loop rounds empty).0 ≡ filled
unfolding code
looped = refl

serves : get_current (start + 20 * minute) (run_refresh_loop rounds empty).0 ≡ ok snapshot
unfolding code
serves = refl

serves_filled : get_current (start + 20 * minute) filled ≡ ok snapshot
unfolding code
serves_filled = refl

goes_stale : get_current (start + 30 * minute) filled ≡ err stale_configuration
unfolding code
goes_stale = refl

positive : 0 < 30 * minute
positive = omega arith

abbrev good : Round ℕ
good = record { discovers = finds; written_at = start; observed_at = start }

abbrev bad : Round ℕ
bad = record {
  discovers = fails;
  written_at = start + 15 * minute;
  observed_at = start + 15 * minute;
}

runs :
    run (some empty) true true (15 * minute) (good ∷ bad ∷ [])
    ≡ ok (filled, (true, status start filled) ∷ (false, status (start + 15 * minute) filled) ∷ [])
unfolding code
runs = refl

run_survives_failure_example :
    get_current (start + 29 * minute) filled
    ≡ ok (record { configuration = 8; valid_until = start + 30 * minute })
unfolding code
run_survives_failure_example =
    run_survives_failure empty filled (15 * minute) (start + 29 * minute) [] good bad _ 8 runs refl
      refl (omega arith) (omega arith)

abbrev fetched : Fetch ℕ
fetched = record { net = net endpoint; discovered_at = now; written_at = now; observed_at = now }

abbrev empty_configurations : ConfigurationCache (Configuration ℕ)
empty_configurations = record {
  issuer = issuer;
  client_id = client_id;
  client = none;
  max_age = 30 * minute;
  current = none;
  fetched_at = 0;
}

abbrev served : Snapshot (Configuration ℕ)
served = record { configuration = configuration; valid_until = now + 30 * minute }

serves_found :
    to_option (discover (net endpoint) now true issuer client_id none).0 ≡ some configuration
    → get_current now (run_refresh_loop (map round_of (fetched ∷ [])) empty_configurations).0
      ≡ ok served
unfolding code
serves_found e = rw (refresh, e) refl

serves_vetted :
    get_current now (run_refresh_loop (map round_of (fetched ∷ [])) empty_configurations).0
    ≡ ok served
serves_vetted = serves_found (ap (λ d. to_option d.0) discovers)

current-IsVetted_example :
    (f : Fetch ℕ) × IsOneOf f (fetched ∷ [])
    × IsVetted f.net f.discovered_at issuer client_id none configuration
    × (served.valid_until ≡ f.written_at + 30 * minute)
    × (now < served.valid_until)
current-IsVetted_example =
    current-IsVetted (fetched ∷ []) empty_configurations now served refl positive serves_vetted
