-- ===== src/Oidc/Cache/Running.antt =====
-- auth/oidc/cache.go, `Run`: what stays served while refreshes fail, and that it was vetted.
use stumpfworks_framework.Base.{
  ℕ, ◌+◌, ◌*◌, ◌/◌, ◌≤◌, ◌<◌, ◌≡◌, inl, inr, refl, sym, ap, ◌∙◌, Bool, true, ◌||◌, List, [], ◌∷◌,
  ◌++◌, none, some, ltb, ok, arith, Bool-cases,
}
use stumpfworks_framework.Oidc.Transactions.{second, clock_skew}
use stumpfworks_framework.Oidc.Cache.{
  ConfigurationCache, Discovery, Round, CacheStatus, fetch, refresh, get_current, run_refresh_loop,
  run,
}
use stumpfworks_framework.Oidc.Cache.Freshness.{loop-HasSettings, current_complete}

module _ {Configuration : Type 0} where
  loop-append :
      (xs ys : List (Round Configuration)) (c : ConfigurationCache Configuration)
      → (run_refresh_loop (xs ++ ys) c).0 ≡ (run_refresh_loop ys (run_refresh_loop xs c).0).0
  unfolding run_refresh_loop
  loop-append [] ys c = refl
  loop-append (r ∷ xs) ys c = loop-append xs ys (refresh r.discovers r.written_at c)

  refresh_found :
      (discovers : Discovery Configuration) (now : ℕ) (c : ConfigurationCache Configuration)
      (found : Configuration)
      → fetch discovers c ≡ some found
      → refresh discovers now c ≡ record c { current = some found; fetched_at = now }
  unfolding refresh
  refresh_found discovers now c found e = rw (refresh, e) refl

  refresh_failed :
      (discovers : Discovery Configuration) (now : ℕ) (c : ConfigurationCache Configuration)
      → fetch discovers c ≡ none
      → refresh discovers now c ≡ c
  unfolding refresh
  refresh_failed discovers now c e = rw (refresh, e) refl

  -- What `Run` has tested, and what it does then.
  record IsRunning (c after : ConfigurationCache Configuration) (interval : ℕ)
      (rounds : List (Round Configuration)) : Type 0 where
    least : second ≤ interval
    most : interval * 2 ≤ c.max_age
    loop : (run_refresh_loop rounds c).0 ≡ after

  running :
      (c after : ConfigurationCache Configuration) (interval : ℕ)
      (rounds : List (Round Configuration)) (observed : List (Bool × CacheStatus))
      → run (some c) true true interval rounds ≡ ok (after, observed)
      → IsRunning c after interval rounds
  unfolding run
  running c after interval rounds observed e =
      elim (Bool-cases (ltb interval second || ltb (c.max_age / 2) interval)) [
        | inl bad ↦ absurd (ground arith)
        | inr fine ↦
            let same : run_refresh_loop rounds c ≡ (after, observed) = ground arith in
            record {
              least = ground arith;
              most = ground arith;
              loop =
                  ap (λ (p : ConfigurationCache Configuration × List (Bool × CacheStatus)). p.0)
                    same;
            }
      ]

  -- One refresh that fails does no harm where `Run` accepts its interval: for two intervals from the
  -- writing of the last success on, `Current` serves what that one fetched.
  pub run_survives_failure :
      (c after : ConfigurationCache Configuration) (interval now : ℕ)
      (before : List (Round Configuration)) (good bad : Round Configuration)
      (observed : List (Bool × CacheStatus)) (found : Configuration)
      → run (some c) true true interval (before ++ good ∷ bad ∷ []) ≡ ok (after, observed)
      → fetch good.discovers c ≡ some found
      → fetch bad.discovers c ≡ none
      → good.written_at ≤ now + clock_skew
      → now < good.written_at + interval * 2
      → get_current now after
        ≡ ok (record { configuration = found; valid_until = good.written_at + c.max_age })
  unfolding run_refresh_loop refresh
  run_survives_failure c after interval now before good bad observed found e fetched failed early
        in_time =
      let h = running c after interval (before ++ good ∷ bad ∷ []) observed e in
      let first = (run_refresh_loop before c).0 in
      let (issuer, client_id, client, age) = loop-HasSettings before c in
      let last : ConfigurationCache Configuration = record first {
        current = some found;
        fetched_at = good.written_at;
      } in
      let fetched' : fetch good.discovers first ≡ some found = cc in
      let failed' : fetch bad.discovers last ≡ none = cc in
      let same : after ≡ last =
        sym h.loop
        ∙ loop-append before (good ∷ bad ∷ []) c
        ∙ ap (refresh bad.discovers bad.written_at)
            (refresh_found good.discovers good.written_at first found fetched')
        ∙ refresh_failed bad.discovers bad.written_at last failed' in
      rw same (
        current_complete now last _ (omega (arith, age, h.least, h.most)) (record {
          held = refl;
          not_future = early;
          not_expired = omega (arith, age, h.most);
          expires = ap (λ n. good.written_at + n) (sym age);
        }))
