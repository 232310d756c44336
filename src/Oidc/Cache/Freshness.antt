-- ===== src/Oidc/Cache/Freshness.antt =====
-- auth/oidc/cache.go: a snapshot is handed out only while it is fresh.
use stumpfworks_framework.Base.{
  ℕ, ◌+◌, ◌≤◌, ◌<◌, ◌≡◌, ◌↔◌, ◌⊎◌, inl, inr, refl, ◌∙◌, ap, true, List, [], ◌∷◌, none, some, ok,
  arith, Option-cases,
}
use stumpfworks_framework.Oidc.Transactions.{clock_skew}
use stumpfworks_framework.Oidc.Cache.{
  ConfigurationCache, Discovery, Snapshot, Round, fetch, refresh, get_current, status,
  run_refresh_loop,
}

module _ {Configuration : Type 0} where
  -- A snapshot that the cache may hand out at `now`.
  pub record IsFresh (now : ℕ) (c : ConfigurationCache Configuration) (s : Snapshot Configuration)
      : Type 0 where
    pub held : c.current ≡ some s.configuration
    pub not_future : c.fetched_at ≤ now + clock_skew
    pub not_expired : now < s.valid_until
    pub expires : s.valid_until ≡ c.fetched_at + c.max_age

  current_sound :
      (now : ℕ) (c : ConfigurationCache Configuration) (s : Snapshot Configuration)
      → 0 < c.max_age
      → get_current now c ≡ ok s
      → IsFresh now c s
  unfolding get_current
  current_sound now c s positive e = elim (Option-cases c.current) [
    | inl empty ↦ absurd (ground arith)
    | inr (found, held) ↦
        let until : s.valid_until ≡ c.fetched_at + c.max_age = ground arith in
        record {
          held = ground arith;
          not_future = ground arith;
          not_expired = ground arith;
          expires = until;
        }
  ]

  pub current_complete :
      (now : ℕ) (c : ConfigurationCache Configuration) (s : Snapshot Configuration)
      → 0 < c.max_age
      → IsFresh now c s
      → get_current now c ≡ ok s
  unfolding get_current
  current_complete now c s positive h =
      let held = h.held in
      let begun = h.not_future in let left = h.not_expired in let until = h.expires in ground arith

  -- For a positive age, `Current` returns a snapshot exactly if it is the one that is held, fetched at
  -- most a minute in the future, and its validity, the fetch plus the age, has not ended.
  get_current_iff :
      (now : ℕ) (c : ConfigurationCache Configuration) (s : Snapshot Configuration)
      → 0 < c.max_age
      → (get_current now c ≡ ok s) ↔ IsFresh now c s
  get_current_iff now c s positive =
      (current_sound now c s positive, current_complete now c s positive)

  -- For a positive age, `Status` says fresh exactly if `Current` returns a snapshot.
  status_agrees :
      (now : ℕ) (c : ConfigurationCache Configuration)
      → 0 < c.max_age
      → ((status now c).fresh ≡ true) ↔ ((s : Snapshot Configuration) × (get_current now c ≡ ok s))
  unfolding status get_current
  status_agrees now c positive = elim (Option-cases c.current) [
    | inl empty ↦ (λ h. absurd (ground arith), λ h. ground (arith, h.1))
    | inr (found, held) ↦ (
      λ h. (record { configuration = found; valid_until = c.fetched_at + c.max_age }, ground arith),
      λ h. let it = h.1 in ground arith,
    )
  ]

  -- A round has fetched it for the issuer, the client ID and the HTTP client of the cache.
  abbrev pub IsFetched :
      ConfigurationCache Configuration → Configuration → ℕ → List (Round Configuration) → Type 0
  IsFetched c found at [] = ⊥
  IsFetched c found at (r ∷ more) =
      ((fetch r.discovers c ≡ some found) × (r.written_at ≡ at)) ⊎ IsFetched c found at more

  -- What a refresh does not change.
  abbrev pub HasSettings :
      ConfigurationCache Configuration → ConfigurationCache Configuration → Type 0
  HasSettings before after =
      (after.issuer ≡ before.issuer)
      × (after.client_id ≡ before.client_id)
      × (after.client ≡ before.client)
      × (after.max_age ≡ before.max_age)

  refresh-HasSettings :
      (discovers : Discovery Configuration) (now : ℕ) (c : ConfigurationCache Configuration)
      → HasSettings c (refresh discovers now c)
  unfolding refresh
  refresh-HasSettings discovers now c = elim (Option-cases (fetch discovers c)) [
    | inl failed ↦ rw (refresh, failed) (refl, refl, refl, refl)
    | inr (new, fetched) ↦ rw (refresh, fetched) (refl, refl, refl, refl)
  ]

  IsFetched-settings :
      (before after : ConfigurationCache Configuration) (found : Configuration) (at : ℕ)
      (rounds : List (Round Configuration))
      → HasSettings before after
      → IsFetched after found at rounds
      → IsFetched before found at rounds
  IsFetched-settings before after found at [] same h = h
  IsFetched-settings before after found at (r ∷ more) same (inl (fetched, written)) =
      let (issuer, client_id, client, age) = same in inl (cc, written)
  IsFetched-settings before after found at (r ∷ more) same (inr h) =
      inr (IsFetched-settings before after found at more same h)

  -- The configuration that is held came from a round, or was there before all of them.
  IsOrigin :
      Configuration
      → List (Round Configuration)
      → ConfigurationCache Configuration
      → ConfigurationCache Configuration
      → Type 0
  IsOrigin found rounds before after =
      ((before.current ≡ some found) × (after.fetched_at ≡ before.fetched_at))
      ⊎ IsFetched before found after.fetched_at rounds

  later :
      (r : Round Configuration) (more : List (Round Configuration))
      (c after : ConfigurationCache Configuration) (found : Configuration)
      → IsOrigin found more (refresh r.discovers r.written_at c) after
      → IsOrigin found (r ∷ more) c after
  unfolding IsOrigin refresh
  later r more c after found (inr h) = inr (
      inr (
        IsFetched-settings c (refresh r.discovers r.written_at c) found after.fetched_at more
          (refresh-HasSettings r.discovers r.written_at c) h))
  later r more c after found (inl (held, at)) = elim (Option-cases (fetch r.discovers c)) [
    | inl failed ↦ inl (ground arith, ground arith)
    | inr (new, fetched) ↦ inr (inl (ground arith, ground arith))
  ]

  loop-IsOrigin :
      (rounds : List (Round Configuration)) (c : ConfigurationCache Configuration)
      (found : Configuration)
      → ((run_refresh_loop rounds c).0).current ≡ some found
      → IsOrigin found rounds c (run_refresh_loop rounds c).0
  unfolding run_refresh_loop IsOrigin
  loop-IsOrigin [] c found e = inl (e, refl)
  loop-IsOrigin (r ∷ more) c found e =
      later r more c (run_refresh_loop (r ∷ more) c).0 found
        (loop-IsOrigin more (refresh r.discovers r.written_at c) found e)

  pub loop-HasSettings :
      (rounds : List (Round Configuration)) (c : ConfigurationCache Configuration)
      → HasSettings c (run_refresh_loop rounds c).0
  unfolding run_refresh_loop
  loop-HasSettings [] c = (refl, refl, refl, refl)
  loop-HasSettings (r ∷ more) c =
      let (a, b, d, e) = refresh-HasSettings r.discovers r.written_at c in
      let (i, j, k, l) = loop-HasSettings more (refresh r.discovers r.written_at c) in
      (i ∙ a, j ∙ b, k ∙ d, l ∙ e)

  -- What `Current` returns after any rounds on an empty cache of positive age is what `Discover`
  -- returned in one of them for its settings, valid for the age from its writing on: a round that fails extends nothing.
  pub loop_current :
      (rounds : List (Round Configuration)) (c : ConfigurationCache Configuration) (now : ℕ)
      (s : Snapshot Configuration)
      → c.current ≡ none
      → 0 < c.max_age
      → get_current now (run_refresh_loop rounds c).0 ≡ ok s
      → (at : ℕ) × IsFetched c s.configuration at rounds
        × (s.valid_until ≡ at + c.max_age)
        × (now < s.valid_until)
  unfolding IsOrigin
  loop_current rounds c now s empty positive e =
      let age = (loop-HasSettings rounds c).3 in
      let fresh = current_sound now (run_refresh_loop rounds c).0 s (ground arith) e in
      let last = (run_refresh_loop rounds c).0 in
      elim (loop-IsOrigin rounds c s.configuration fresh.held) [
        | inl (held, at) ↦ absurd (ground arith)
        | inr fetched ↦ (
          last.fetched_at,
          fetched,
          fresh.expires ∙ ap (λ n. last.fetched_at + n) age,
          fresh.not_expired,
        )
      ]
