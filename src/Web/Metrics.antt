-- ===== src/Web/Metrics.antt =====
-- web/metrics/metrics.go: the registry, and the text that it serves. Durations in seconds are floats
-- in the source: their type, order, sum and decimal text are parameters, and so are the texts of
-- numbers.
pub mod Histogram
pub mod Exposition
pub mod Labels
pub mod Auth
pub mod Tests
use stumpfworks_framework.Base.{
  ℕ, ◌+◌, ◌%◌, ◌^◌, ◌≡◌, Bool, true, false, not, ◌&&◌, ◌||◌, List, [], ◌∷◌, ◌++◌, map, Option, none,
  some, Bytes, Bytes-discrete, ℕ_discrete, any, eqb, ltb, ◌==◌, is_empty, codes, if◌then◌else◌,
  lookup, insert,
}
use stumpfworks_framework.Web.Http.{
  Handler, Request, Headers, Run, Action, set_header, write, content_type, cache_control, reply,
}
use stumpfworks_framework.Web.Middleware.{status_of}

-- Go's `float64`, as far as it is used. `uppers` are the bounds of the buckets, and `zero` is 0.
pub record Seconds : Type 1 where
  pub F : Type 0
  pub zero : F
  pub plus : F → F → F
  pub le : F → F → Bool
  pub lt : F → F → Bool
  pub uppers : List F
  pub text : F → Bytes

pub record Key : Type 0 where
  pub method : Bytes
  pub route : Bytes
  pub status : ℕ

unfoldable pub Key-discrete : Discrete Key
unfolding ℕ_discrete Bytes-discrete
Key-discrete = hlevel (Bytes-discrete, ℕ_discrete)

pub record DirectoryKey : Type 0 where
  pub outcome : Bytes
  pub stage : Bytes

unfoldable pub DirectoryKey-discrete : Discrete DirectoryKey
unfolding Bytes-discrete
DirectoryKey-discrete = hlevel Bytes-discrete

-- `Stats` of data/postgres/postgres.go, in numbers; `acquire_seconds` is the text of its duration.
pub record Stats : Type 0 where
  pub acquired : ℕ
  pub constructing : ℕ
  pub idle : ℕ
  pub maximum : ℕ
  pub total : ℕ
  pub acquire_count : ℕ
  pub canceled_count : ℕ
  pub empty_count : ℕ
  pub new_count : ℕ
  pub acquire_seconds : Bytes

-- `methodLabel`
unfoldable pub method_label : Bytes → Bytes
method_label m =
    if any (λ t. eqb t m)
      (codes "GET"
        ∷ codes "HEAD"
        ∷ codes "POST"
        ∷ codes "PUT"
        ∷ codes "PATCH"
        ∷ codes "DELETE"
        ∷ codes "OPTIONS"
        ∷ codes "CONNECT"
        ∷ codes "TRACE"
        ∷ [])
    then m
    else codes "OTHER"

-- `boundedLDAPStage`
unfoldable pub bounded_stage : Bytes → Bytes
bounded_stage stage =
    if any (λ t. eqb t stage)
      (codes "validation" ∷ codes "connect" ∷ codes "bind" ∷ codes "search" ∷ codes "result" ∷ [])
    then stage
    else codes "result"

-- `boundedLDAPOutcome`
unfoldable pub bounded_outcome : Bytes → Bytes
bounded_outcome outcome =
    if any (λ t. eqb t outcome)
      (codes "success"
        ∷ codes "not_found"
        ∷ codes "ambiguous"
        ∷ codes "canceled"
        ∷ codes "timeout"
        ∷ codes "unavailable"
        ∷ codes "invalid_input"
        ∷ [])
    then outcome
    else codes "unavailable"

abbrev pub word : ℕ
word = 2 ^ 64

module _ (seconds : Seconds) where
  open seconds use {F, zero, plus, le, lt, uppers}

  pub record Observation : Type 0 where
    pub count : ℕ
    pub sum : F
    pub buckets : List ℕ

  -- The zero value of the type.
  abbrev pub nothing_yet : Observation
  nothing_yet = record { count = 0; sum = zero; buckets = map (λ u. 0) uppers }

  -- The loop over the buckets.
  unfoldable pub bump_buckets : F → List F → List ℕ → List ℕ
  bump_buckets s (u ∷ us) (b ∷ bs) = (if le s u then (b + 1) % word else b) ∷ bump_buckets s us bs
  bump_buckets s [] bs = bs
  bump_buckets s (u ∷ us) [] = []

  unfoldable pub bump : F → Observation → Observation
  bump s o = record {
    count = (o.count + 1) % word;
    sum = plus o.sum s;
    buckets = bump_buckets s uppers o.buckets;
  }

  -- `registry.postgres`: what `Stats` returns, or `none` where it panics.
  pub record Registry : Type 0 where
    pub http : List (Key × Observation)
    pub directory : List (DirectoryKey × Observation)
    pub postgres : Option (Option Stats)

  abbrev pub new_registry : Registry
  new_registry = record { http = []; directory = []; postgres = none }

  abbrev pub or_nothing : Option Observation → Observation
  or_nothing none = nothing_yet
  or_nothing (some o) = o

  -- `observe`
  unfoldable pub observe : Key → F → Registry → Registry
  observe label s r = record r {
    http =
        insert Key-discrete label (bump s (or_nothing (lookup Key-discrete label r.http))) r.http;
  }

  -- `ObserveLDAPLookup`, for the seconds of the duration.
  unfoldable pub observe_lookup : Bytes → Bytes → F → Registry → Registry
  observe_lookup outcome stage duration r =
      let s = if lt duration zero then zero else duration in
      let label : DirectoryKey = record {
        outcome = bounded_outcome outcome;
        stage = bounded_stage stage;
      } in
      record r {
        directory =
            insert DirectoryKey-discrete label
              (bump s (or_nothing (lookup DirectoryKey-discrete label r.directory))) r.directory;
      }

  -- The label of a request that `Middleware` has seen through, for the actions of the next handler.
  abbrev pub label_of : Request → List Action → Key
  label_of r actions = record {
    method = method_label r.method;
    route = if is_empty r.pattern then codes "unmatched" else r.pattern;
    status = if status_of actions == 0 then 200 else status_of actions;
  }

  -- `Middleware`: the run of the next handler, and the registry. A panic passes unobserved.
  unfoldable pub middleware : F → Handler → Request → Headers → Registry → Run × Registry
  middleware s next r h registry =
      let run = next r h in
      (run, if run.panicked then registry else observe (label_of r run.actions) s registry)
