-- ===== src/Postgres.antt =====
-- data/postgres/postgres.go: the pool that an application opens, and transactions. pgx is a parameter:
-- parsing, creating a pool and pinging it. What begin, commit and rollback do to one session is written
-- out. A pool is a number. Contexts are left to the caller.
pub mod Open
pub mod Transactions
pub mod Tests
use stumpfworks_framework.Base.{
  ℕ, Bool, true, false, not, ◌&&◌, ◌||◌, List, [], ◌∷◌, Option, none, some, Bytes, any, is_empty,
  Result, ok, err, ◌>>=◌, ◌>>◌, or_fail, reject_if, ℤ, is_positive, is_negative, exceeds,
  if◌then◌else◌,
}
use stumpfworks_framework.Web.Metrics.{Stats}

pub record Options : Type 0 where
  pub url : Bytes
  pub max_connections : ℤ
  pub min_connections : ℤ
  pub connect_timeout : ℤ
  pub max_message_bytes : ℤ
  pub allow_insecure : Bool

pub data Error : Type 0 where
  no_url bad_max_connections bad_min_connections bad_connect_timeout bad_message_bytes : Error
  bad_configuration tls_required create_failed connect_failed : Error

-- The fields of `pgxpool.Config` that the code reads or sets. A fallback is whether it has TLS.
pub record PoolConfig : Type 0 where
  pub has_tls : Bool
  pub fallbacks : List Bool
  pub max_connections : ℤ
  pub min_connections : ℤ
  pub connect_timeout : ℤ
  pub max_message_bytes : ℤ

-- `validate`
unfoldable pub validate : Options → Result Error (Unit {0})
validate o = do
  reject_if (is_empty o.url) no_url
  reject_if (not (is_positive o.max_connections)) bad_max_connections
  reject_if (is_negative o.min_connections || exceeds o.min_connections o.max_connections)
      bad_min_connections
  reject_if (not (is_positive o.connect_timeout)) bad_connect_timeout
  reject_if (not (is_positive o.max_message_bytes)) bad_message_bytes

-- `permitsPlaintext`
unfoldable pub permits_plaintext : PoolConfig → Bool
permits_plaintext c = not c.has_tls || any (λ has_tls. not has_tls) c.fallbacks

-- The settings that `Open` writes over those of the URL.
abbrev pub configured : Options → PoolConfig → PoolConfig
configured o c = record c {
  max_connections = o.max_connections;
  min_connections = o.min_connections;
  connect_timeout = o.connect_timeout;
  max_message_bytes = o.max_message_bytes;
}

-- What pgx is called for.
pub data Effect : Type 0 where
  create : PoolConfig → Effect
  ping close : ℕ → Effect

-- The configuration that `Open` creates a pool with.
unfoldable pub prepare : (Bytes → Option PoolConfig) → Options → Result Error PoolConfig
prepare parse_config o = do
  validate o
  config ← or_fail (parse_config o.url) bad_configuration
  reject_if (not o.allow_insecure && permits_plaintext config) tls_required
  ok (configured o config)

module _ (new_pool : PoolConfig → Option ℕ) (answers : ℕ → Bool) where
  -- `Open`, from `pgxpool.NewWithConfig` on.
  unfoldable pub connect : PoolConfig → Result Error ℕ × List Effect
  connect config = elim (new_pool config) [
    | none ↦ (err create_failed, create config ∷ [])
    | some pool ↦
        if answers pool
        then (ok pool, create config ∷ ping pool ∷ [])
        else (err connect_failed, create config ∷ ping pool ∷ close pool ∷ [])
  ]

  -- `Open`
  unfoldable pub open_pool : (Bytes → Option PoolConfig) → Options → Result Error ℕ × List Effect
  open_pool parse_config o = elim (prepare parse_config o) [
    | err e ↦ (err e, [])
    | ok config ↦ connect config
  ]

-- `pgxpool.Stat`, what its methods return.
pub record Stat : Type 0 where
  pub acquired_conns : ℕ
  pub constructing_conns : ℕ
  pub idle_conns : ℕ
  pub max_conns : ℕ
  pub total_conns : ℕ
  pub acquire_count : ℕ
  pub canceled_acquire_count : ℕ
  pub empty_acquire_count : ℕ
  pub new_conns_count : ℕ
  pub acquire_seconds : Bytes

-- `Stats`
abbrev pub stats : Stat → Stats
stats s = record {
  acquired = s.acquired_conns;
  constructing = s.constructing_conns;
  idle = s.idle_conns;
  maximum = s.max_conns;
  total = s.total_conns;
  acquire_count = s.acquire_count;
  canceled_count = s.canceled_acquire_count;
  empty_count = s.empty_acquire_count;
  new_count = s.new_conns_count;
  acquire_seconds = s.acquire_seconds;
}

-- What is committed, as far as this session sees it, and the draft of an open transaction.
pub record Session (D : Type 0) : Type 0 where
  pub committed : D
  pub draft : Option D

-- How the callback ends, and how the server takes a commit: `lost` is one that is made, and whose
-- answer does not arrive.
pub data WorkEnd : Type 0 where
  succeeded failed panicked : WorkEnd

pub data CommitEnd : Type 0 where
  acknowledged refused lost : CommitEnd

pub data TransactionError : Type 0 where
  no_callback begin_failed callback_failed commit_failed : TransactionError

-- How a call ends: it returns, or the callback's panic goes on.
pub data Ending : Type 0 where
  returns : Result TransactionError (Unit {0}) → Ending
  panics : Ending

-- A callback.
abbrev pub Work : Type 0 → Type 0
Work D = Session D → WorkEnd × Session D

module _ {D : Type 0} where
  -- `tx.Commit`, which fails on a transaction that the callback has closed.
  abbrev pub commit : CommitEnd → Session D → Bool × Session D
  commit end s = elim s.draft [
    | none ↦ (false, s)
    | some draft ↦ elim end [
      | acknowledged ↦ (true, record { committed = draft; draft = none })
      | refused ↦ (false, record { committed = s.committed; draft = none })
      | lost ↦ (false, record { committed = draft; draft = none })
    ]
  ]

  -- `tx.Rollback`, which does nothing where the transaction is closed.
  abbrev pub rollback : Session D → Session D
  rollback s = record s { draft = none }

  -- What stands between the `defer` and the end.
  unfoldable pub attempt : CommitEnd → Work D → Session D → Ending × Session D
  attempt end work s =
      let (done, after) = work s in
      elim done [
        | panicked ↦ (panics, after)
        | failed ↦ (returns (err callback_failed), after)
        | succeeded ↦
            let (accepted, closed) = commit end after in
            (if accepted then returns (ok tt) else returns (err commit_failed), closed)
      ]

  -- `WithinTransaction`
  unfoldable pub within_transaction : Bool → CommitEnd → Option (Work D) → D → Ending × Session D
  within_transaction begins end work db =
      let idle : Session D = record { committed = db; draft = none } in
      elim work [
        | none ↦ (returns (err no_callback), idle)
        | some work ↦
            if not begins
            then (returns (err begin_failed), idle)
            else let (ending, after) =
                attempt end work (record { committed = db; draft = some db }) in
              (ending, rollback after)
      ]
