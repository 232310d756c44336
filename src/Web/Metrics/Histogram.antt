-- ===== src/Web/Metrics/Histogram.antt =====
-- web/metrics/metrics.go: what the registry knows of the observed requests.
use stumpfworks_framework.Base.{
  ℕ, suc, ◌+◌, ◌%◌, ◌<◌, ◌≡◌, refl, ◌∙◌, Bool, true, false, List, [], ◌∷◌, map, All, Option, none,
  some, length, arith, holds, Bool-cases, inl, inr, ◌⊎◌, ◌≢◌, if◌then◌else◌, lookup, lookup-insert,
}
use stumpfworks_framework.Web.Metrics.{
  Seconds, Key, Key-discrete, Observation, nothing_yet, bump_buckets, bump, Registry, new_registry,
  or_nothing, observe, word,
}

module _ (seconds : Seconds) where
  open seconds use {F, plus, le, uppers}

  -- The durations that are at most a bound.
  abbrev pub count_le : F → List F → ℕ
  count_le u [] = 0
  count_le u (s ∷ more) = (if le s u then 1 else 0) + count_le u more

  abbrev pub sum_from : F → List F → F
  sum_from acc [] = acc
  sum_from acc (s ∷ more) = sum_from (plus acc s) more

  abbrev pub is_none : List F → Bool
  is_none [] = true
  is_none (s ∷ more) = false

  List-cases : (l : List F) → (l ≡ []) ⊎ ((s : F) × (more : List F) × (l ≡ s ∷ more))
  List-cases [] = inl refl
  List-cases (s ∷ more) = inr (s, more, refl)

  -- What a histogram of these durations holds: each counter is a 64-bit word.
  abbrev pub summary : List F → Observation seconds
  summary l = record {
    count = length l % word;
    sum = sum_from seconds.zero l;
    buckets = map (λ u. count_le u l % word) uppers;
  }

  -- The durations of the requests with a label, among those that completed.
  pub durations : Key → List (Key × F) → List F
  durations label [] = []
  durations label ((k, s) ∷ more) =
      if holds (Key-discrete k label) then s ∷ durations label more else durations label more

  abbrev pub observe_all : List (Key × F) → Registry seconds → Registry seconds
  observe_all [] r = r
  observe_all ((k, s) ∷ more) r = observe_all more (observe seconds k s r)

  -- An item after more durations.
  bump_all : List F → Option (Observation seconds) → Option (Observation seconds)
  bump_all [] o = o
  bump_all (s ∷ more) o = bump_all more (some (bump seconds s (or_nothing seconds o)))

  observed :
      (label k : Key) (s : F) (r : Registry seconds)
      → lookup Key-discrete label (observe seconds k s r).http ≡ (
          if holds (Key-discrete k label)
          then some (bump seconds s (or_nothing seconds (lookup Key-discrete label r.http)))
          else lookup Key-discrete label r.http)
  unfolding observe
  observed label k s r =
      let law =
        lookup-insert Key-discrete label k
          (bump seconds s (or_nothing seconds (lookup Key-discrete k r.http))) r.http in
      ground (arith, law)

  found :
      (label : Key) (events : List (Key × F)) (r : Registry seconds)
      → lookup Key-discrete label (observe_all events r).http
        ≡ bump_all (durations label events) (lookup Key-discrete label r.http)
  unfolding bump_all durations
  found label [] r = refl
  found label ((k, s) ∷ more) r = elim (Bool-cases (holds (Key-discrete k label))) [
    | inl same ↦ rw (found label more (observe seconds k s r), observed label k s r, same) refl
    | inr other ↦ rw (found label more (observe seconds k s r), observed label k s r, other) refl
  ]

  -- The buckets `bs` after more durations.
  add_counts : List F → List ℕ → List F → List ℕ
  add_counts [] bs l = bs
  add_counts (u ∷ us) [] l = []
  add_counts (u ∷ us) (b ∷ bs) l = (b + count_le u l) % word ∷ add_counts us bs l

  AreWords : List ℕ → Type 0
  AreWords = All (λ b. b < word)

  add_counts_nil : (us : List F) (bs : List ℕ) → AreWords bs → add_counts us bs [] ≡ bs
  unfolding add_counts AreWords
  add_counts_nil [] bs h = refl
  add_counts_nil (u ∷ us) [] h = refl
  add_counts_nil (u ∷ us) (b ∷ bs) h = ground (arith, add_counts_nil us bs h.1, h.0)

  add_counts_bump :
      (s : F) (l : List F) (us : List F) (bs : List ℕ)
      → add_counts us (bump_buckets seconds s us bs) l ≡ add_counts us bs (s ∷ l)
  unfolding add_counts bump_buckets
  add_counts_bump s l [] bs = refl
  add_counts_bump s l (u ∷ us) [] = refl
  add_counts_bump s l (u ∷ us) (b ∷ bs) = ground (arith, add_counts_bump s l us bs)

  bump_buckets-AreWords :
      (s : F) (us : List F) (bs : List ℕ) → AreWords bs → AreWords (bump_buckets seconds s us bs)
  unfolding AreWords bump_buckets
  bump_buckets-AreWords s [] bs h = h
  bump_buckets-AreWords s (u ∷ us) [] h = tt
  bump_buckets-AreWords s (u ∷ us) (b ∷ bs) h =
      (ground (arith, h.0), bump_buckets-AreWords s us bs h.1)

  bumped :
      (l : List F) (o : Observation seconds)
      → o.count < word
      → AreWords o.buckets
      → bump_all l (some o)
        ≡ some (record {
          count = (o.count + length l) % word;
          sum = sum_from o.sum l;
          buckets = add_counts uppers o.buckets l;
        })
  unfolding bump_all bump
  bumped [] o small words =
      let kept = add_counts_nil uppers o.buckets words in
      let same : (o.count + 0) % word ≡ o.count = omega arith in ground arith
  bumped (s ∷ more) o small words =
      let rest =
        bumped more (bump seconds s o) (omega arith)
          (bump_buckets-AreWords s uppers o.buckets words) in
      let added = add_counts_bump s more uppers o.buckets in
      let number : ((o.count + 1) % word + length more) % word
          ≡ (o.count + suc (length more)) % word =
        omega arith in
      rw (rest, added, number) refl

  from_nothing :
      (us : List F) (l : List F)
      → add_counts us (map (λ u. 0) us) l ≡ map (λ u. count_le u l % word) us
  unfolding add_counts
  from_nothing [] l = refl
  from_nothing (u ∷ us) l = ground (arith, from_nothing us l)

  zeros-AreWords : (us : List F) → AreWords (map (λ u. 0) us)
  unfolding AreWords
  zeros-AreWords [] = tt
  zeros-AreWords (u ∷ us) = (ground arith, zeros-AreWords us)

  summarised : (l : List F) → l ≢ [] → bump_all l none ≡ some (summary l)
  unfolding bump_all bump
  summarised [] h = absurd (h refl)
  summarised (s ∷ more) h =
      let all = bumped (s ∷ more) (nothing_yet seconds) (omega arith) (zeros-AreWords uppers) in
      let zeros = from_nothing uppers (s ∷ more) in
      let number : (0 + length (s ∷ more)) % word ≡ length (s ∷ more) % word = omega arith in
      all ∙ rw (zeros, number) refl

  -- The registry refines the list of the completed requests: after any of them, a label has no entry
  -- if no request had it, and else the number, the sum and the cumulative buckets of the durations of
  -- those that had it, in the order of completion, whatever other labels were observed between.
  pub observe_all-summary :
      (label : Key) (events : List (Key × F))
      → lookup Key-discrete label (observe_all events (new_registry seconds)).http ≡ (
          if is_none (durations label events)
          then none
          else some (summary (durations label events)))
  unfolding lookup bump_all
  observe_all-summary label events =
      let all = found label events (new_registry seconds) in
      elim (List-cases (durations label events)) [
        | inl nothing ↦ rw (all, nothing) refl
        | inr (s, more, some_events) ↦ rw (all, some_events) (summarised (s ∷ more) (λ e. cc))
      ]
