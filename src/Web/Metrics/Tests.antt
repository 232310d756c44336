-- ===== src/Web/Metrics/Tests.antt =====
-- web/metrics/metrics_test.go: two requests and a lookup, and a label with marks to escape. Seconds are
-- whole numbers here.
use stumpfworks_framework.Base.{
  ℕ, ◌+◌, ◌≡◌, ◌≢◌, refl, false, List, [], ◌∷◌, ◌++◌, some, none, Bytes, Bytes-discrete, ℕ_discrete,
  codes, leb, ltb, lookup, insert, All, if◌then◌else◌,
}
use stumpfworks_framework.Web.Metrics.{
  Seconds, Key, Key-discrete, method_label, bounded_stage, bounded_outcome, bump, bump_buckets,
  new_registry, observe, observe_lookup, DirectoryKey-discrete,
}
use stumpfworks_framework.Web.Metrics.Histogram.{
  observe_all, durations, summary, observe_all-summary, is_none,
}
use stumpfworks_framework.Web.Metrics.Exposition.{quote, replace}
use stumpfworks_framework.Web.Metrics.Labels.{read_value, read_quote}

abbrev seconds : Seconds
seconds = record {
  F = ℕ;
  zero = 0;
  plus = λ a b. a + b;
  le = leb;
  lt = ltb;
  uppers = 1 ∷ 5 ∷ [];
  text = λ n. [];
}

abbrev home : Key
home = record { method = codes "GET"; route = codes "/"; status = 200 }

abbrev missing : Key
missing = record { method = codes "GET"; route = codes "unmatched"; status = 404 }

abbrev events : List (Key × ℕ)
events = (home, 4) ∷ (missing, 1) ∷ (home, 1) ∷ []

code : Unit {0}
unfolding observe_all observe bump bump_buckets Key-discrete DirectoryKey-discrete Bytes-discrete
    ℕ_discrete lookup insert method_label bounded_stage bounded_outcome observe_lookup
code = tt

counts :
    lookup Key-discrete home (observe_all seconds events (new_registry seconds)).http
    ≡ some (record { count = 2; sum = 5; buckets = 1 ∷ 2 ∷ [] })
unfolding code
counts = refl

other_method : method_label (codes "BREW") ≡ codes "OTHER"
unfolding code
other_method = refl

observe_all-summary_example :
    lookup Key-discrete home (observe_all seconds events (new_registry seconds)).http ≡ (
      if is_none seconds (durations seconds home events)
      then none
      else some (summary seconds (durations seconds home events)))
observe_all-summary_example = observe_all-summary seconds home events

abbrev marked : Bytes
marked = b'a' ∷ b'"' ∷ b'\n' ∷ b'\\' ∷ []

escapes : quote marked ≡ b'"' ∷ b'a' ∷ b'\\' ∷ b'"' ∷ b'\\' ∷ b'n' ∷ b'\\' ∷ b'\\' ∷ b'"' ∷ []
unfolding quote replace
escapes = refl

read_quote_example :
    (line : Bytes) × (quote marked ++ codes "}" ≡ b'"' ∷ line)
    × (read_value false line ≡ some (marked, codes "}"))
    × All (λ c. c ≢ b'\n') (quote marked)
read_quote_example = read_quote marked (codes "}")
