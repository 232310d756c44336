-- ===== src/Oidc/Cache/Vetted.antt =====
-- auth/oidc/cache.go with auth/oidc/discovery.go: what `Current` hands out was vetted by `Discover`.
use stumpfworks_framework.Base.{
  ℕ, ◌+◌, ◌<◌, ◌≡◌, ◌⊎◌, inl, inr, refl, true, List, [], ◌∷◌, map, Option, none, some, Bytes, ok,
  err, Result, arith, Result-cases,
}
use stumpfworks_framework.Oidc.Fetch.{Client}
use stumpfworks_framework.Oidc.Discovery.{Net, Configuration, discover}
use stumpfworks_framework.Oidc.Discovery.Vetted.{IsVetted, discover-IsVetted}
use stumpfworks_framework.Oidc.Cache.{
  ConfigurationCache, Discovery, Snapshot, Round, get_current, run_refresh_loop,
}
use stumpfworks_framework.Oidc.Cache.Freshness.{IsFetched, loop_current}

-- A round: the network as `Discover` finds it, and when it reads the clock; then when the result is
-- written, and when the status is read.
pub record Fetch (Key : Type 0) : Type 0 where
  pub net : Net Key
  pub discovered_at : ℕ
  pub written_at : ℕ
  pub observed_at : ℕ

abbrev pub IsOneOf : {Key : Type 0} → Fetch Key → List (Fetch Key) → Type 0
IsOneOf f [] = ⊥
IsOneOf f (g ∷ more) = (g ≡ f) ⊎ IsOneOf f more

-- The configuration where the error is nil.
abbrev pub to_option {ℓ κ} : {E : Type ℓ} {A : Type κ} → Result E A → Option A
to_option (ok a) = some a
to_option (err e) = none

module _ {Key : Type 0} where
  -- `Discover` in it, with the context of the loop.
  abbrev pub discovers_in : Fetch Key → Discovery (Configuration Key)
  discovers_in f issuer client_id client =
      to_option (discover f.net f.discovered_at true issuer client_id client).0

  abbrev pub round_of : Fetch Key → Round (Configuration Key)
  round_of f = record {
    discovers = discovers_in f;
    written_at = f.written_at;
    observed_at = f.observed_at;
  }

  discovers_in-IsVetted :
      (f : Fetch Key) (issuer client_id : Bytes) (client : Option Client) (c : Configuration Key)
      → discovers_in f issuer client_id client ≡ some c
      → IsVetted f.net f.discovered_at issuer client_id client c
  discovers_in-IsVetted f issuer client_id client c e =
      elim (Result-cases (discover f.net f.discovered_at true issuer client_id client).0) [
        | inr (reason, failed) ↦ absurd (ground arith)
        | inl (d, found) ↦
            (discover-IsVetted f.net f.discovered_at true issuer client_id client).1 c
              (ground arith)
      ]

  origin :
      (cache : ConfigurationCache (Configuration Key)) (fetches : List (Fetch Key))
      (c : Configuration Key) (at : ℕ)
      → IsFetched cache c at (map round_of fetches)
      → (f : Fetch Key) × IsOneOf f fetches
        × (discovers_in f cache.issuer cache.client_id cache.client ≡ some c)
        × (f.written_at ≡ at)
  origin cache [] c at h = absurd h
  origin cache (f ∷ more) c at (inl (found, written)) = (f, inl refl, found, written)
  origin cache (f ∷ more) c at (inr h) =
      let (g, there, found, written) = origin cache more c at h in (g, inr there, found, written)

  -- What `Current` returns after any rounds of `Discover` on an empty cache of positive age was vetted
  -- in one of them, for the issuer, the client ID and the HTTP client of the cache, and is valid for the age from its writing on.
  pub current-IsVetted :
      (fetches : List (Fetch Key)) (c : ConfigurationCache (Configuration Key)) (now : ℕ)
      (s : Snapshot (Configuration Key))
      → c.current ≡ none
      → 0 < c.max_age
      → get_current now (run_refresh_loop (map round_of fetches) c).0 ≡ ok s
      → (f : Fetch Key) × IsOneOf f fetches
        × IsVetted f.net f.discovered_at c.issuer c.client_id c.client s.configuration
        × (s.valid_until ≡ f.written_at + c.max_age)
        × (now < s.valid_until)
  current-IsVetted fetches c now s empty positive e =
      let (at, fetched, until, left) =
        loop_current (map round_of fetches) c now s empty positive e in
      let (f, there, found, written) = origin c fetches s.configuration at fetched in
      (
        f,
        there,
        discovers_in-IsVetted f c.issuer c.client_id c.client s.configuration found,
        rw written until,
        left,
      )
