-- ===== src/Oidc/Cache.antt =====
-- auth/oidc/cache.go: the snapshot of discovery and keys that new logins use. Each method holds the
-- cache's locks and is one step here; `Discover` is a parameter. Only `Run` is
-- modelled for a cache that is nil.
pub mod Freshness
pub mod Running
pub mod Vetted
pub mod Tests
use stumpfworks_framework.Base.{
  ℕ, ◌+◌, ◌-◌, ◌/◌, Bool, true, false, not, ◌&&◌, ◌||◌, List, [], ◌∷◌, Option, none, some, Bytes,
  ltb, leb, is_empty, if◌then◌else◌, Result, ok, err,
}
use stumpfworks_framework.Oidc.Fetch.{Client}
use stumpfworks_framework.Oidc.Transactions.{minute, second, hour, clock_skew}

pub data Error : Type 0 where
  invalid_cache stale_configuration invalid_loop : Error

-- `current` is a configuration of discovery; `fetched_at` is 0 before the first one.
pub record ConfigurationCache (Configuration : Type 0) : Type 0 where
  pub issuer : Bytes
  pub client_id : Bytes
  pub client : Option Client
  pub max_age : ℕ
  pub current : Option Configuration
  pub fetched_at : ℕ

-- A configuration with the end of its validity.
pub record Snapshot (Configuration : Type 0) : Type 0 where
  pub configuration : Configuration
  pub valid_until : ℕ

pub record CacheStatus : Type 0 where
  pub last_successful_refresh : ℕ
  pub expires_at : ℕ
  pub fresh : Bool

-- `Discover` at one time, for an issuer, a client ID and an HTTP client.
abbrev pub Discovery : Type 0 → Type 0
Discovery Configuration = Bytes → Bytes → Option Client → Option Configuration

-- One round of `runRefreshLoop`: what `Discover` does then, when its result is written, and when the
-- observer's status is read.
pub record Round (Configuration : Type 0) : Type 0 where
  pub discovers : Discovery Configuration
  pub written_at : ℕ
  pub observed_at : ℕ

-- Whether the error that the observer is given is nil.
abbrev pub succeeded : {A : Type 0} → Option A → Bool
succeeded none = false
succeeded (some a) = true

module _ {Configuration : Type 0} where
  -- `NewConfigurationCache`. A negative age is refused like 0.
  unfoldable pub new_cache :
      (Bytes → Bool)
      → Bytes
      → Bytes
      → Option Client
      → ℕ
      → Result Error (ConfigurationCache Configuration)
  new_cache valid_issuer issuer client_id client max_age =
      if not (valid_issuer issuer) || is_empty client_id || ltb max_age minute || ltb hour max_age
      then err invalid_cache
      else ok (record {
        issuer = issuer;
        client_id = client_id;
        client = client;
        max_age = max_age;
        current = none;
        fetched_at = 0;
      })

  -- What `Refresh` is given by `Discover`.
  abbrev pub fetch :
      Discovery Configuration → ConfigurationCache Configuration → Option Configuration
  fetch discovers c = discovers c.issuer c.client_id c.client

  -- `Refresh`, at the time of the writing.
  unfoldable pub refresh :
      Discovery Configuration
      → ℕ
      → ConfigurationCache Configuration
      → ConfigurationCache Configuration
  refresh discovers now c = elim (fetch discovers c) [
    | none ↦ c
    | some found ↦ record c { current = some found; fetched_at = now }
  ]

  unfoldable pub get_current :
      ℕ → ConfigurationCache Configuration → Result Error (Snapshot Configuration)
  get_current now c = elim c.current [
    | none ↦ err stale_configuration
    | some found ↦
        if ltb (now + clock_skew) c.fetched_at || leb c.max_age (now - c.fetched_at)
        then err stale_configuration
        else ok (record { configuration = found; valid_until = c.fetched_at + c.max_age })
  ]

  unfoldable pub status : ℕ → ConfigurationCache Configuration → CacheStatus
  status now c = elim c.current [
    | none ↦ record { last_successful_refresh = 0; expires_at = 0; fresh = false }
    | some found ↦ record {
      last_successful_refresh = c.fetched_at;
      expires_at = c.fetched_at + c.max_age;
      fresh = not (ltb (now + clock_skew) c.fetched_at) && ltb now (c.fetched_at + c.max_age);
    }
  ]

  -- `runRefreshLoop`, for the rounds until its context ends: the cache then, and what was observed.
  unfoldable pub run_refresh_loop :
      List (Round Configuration)
      → ConfigurationCache Configuration
      → ConfigurationCache Configuration × List (Bool × CacheStatus)
  run_refresh_loop [] c = (c, [])
  run_refresh_loop (r ∷ more) c =
      let next = refresh r.discovers r.written_at c in
      let (last, observed) = run_refresh_loop more next in
      (last, (succeeded (fetch r.discovers c), status r.observed_at next) ∷ observed)

  -- `Run`, for a cache, a context and an observer that may be nil: the rounds end with the context.
  unfoldable pub run :
      Option (ConfigurationCache Configuration)
      → Bool
      → Bool
      → ℕ
      → List (Round Configuration)
      → Result Error (ConfigurationCache Configuration × List (Bool × CacheStatus))
  run none has_context has_observer interval rounds = err invalid_loop
  run (some c) has_context has_observer interval rounds =
      if not has_context || not has_observer || ltb interval second || ltb (c.max_age / 2) interval
      then err invalid_loop
      else ok (run_refresh_loop rounds c)
