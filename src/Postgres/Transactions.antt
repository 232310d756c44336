-- ===== src/Postgres/Transactions.antt =====
-- data/postgres/postgres.go, `WithinTransaction`: all of the callback's work is committed, or none.
use stumpfworks_framework.Base.{◌≡◌, ◌↔◌, ◌≢◌, ◌⊎◌, Bool, true, false, none, some, ok, arith}
use stumpfworks_framework.Postgres.{
  Session, WorkEnd, succeeded, CommitEnd, acknowledged, lost, panicked, Ending, returns, panics,
  Work, attempt, within_transaction,
}

module _ {D : Type 0} where
  -- The session in which the callback begins.
  abbrev pub begun : D → Session D
  begun db = record { committed = db; draft = some db }

  -- A callback that works on the transaction, and leaves closing it to the caller.
  abbrev pub Drafts : Work D → D → WorkEnd → D → Type 0
  Drafts work db end made = work (begun db) ≡ (end, record { committed = db; draft = some made })

  pub record IsAtomic (begins : Bool) (commits : CommitEnd) (end : WorkEnd) (db made : D)
      (result : Ending × Session D) : Type 0 where
    -- No transaction is left open.
    pub closed : result.1.draft ≡ none
    pub success :
        (result.0 ≡ returns (ok tt))
        ↔ ((begins ≡ true) × (end ≡ succeeded) × (commits ≡ acknowledged))
    pub published : result.0 ≡ returns (ok tt) → result.1.committed ≡ made
    pub all_or_nothing :
        (result.1.committed ≡ db) ⊎ ((result.1.committed ≡ made) × (end ≡ succeeded))
    pub discarded : commits ≢ lost → result.0 ≢ returns (ok tt) → result.1.committed ≡ db
    pub panics_on : (result.0 ≡ panics) ↔ ((begins ≡ true) × (end ≡ panicked))

  -- For a callback that works on the transaction and leaves closing it to the caller, the call returns
  -- nil exactly where the transaction begins, the callback returns nil and the server acknowledges the
  -- commit, and then the callback's work is committed. Else the database is as it was, unless only the
  -- answer to the commit was lost. No transaction is left open, and a panic goes on.
  pub within_transaction-IsAtomic :
      (begins : Bool) (commits : CommitEnd) (work : Work D) (end : WorkEnd) (db made : D)
      → Drafts work db end made
      → IsAtomic begins commits end db made (within_transaction begins commits (some work) db)
  unfolding within_transaction attempt
  within_transaction-IsAtomic false commits work end db made h = record {
    closed = ground arith;
    success = ground arith;
    published = ground arith;
    all_or_nothing = ground arith;
    discarded = ground arith;
    panics_on = ground arith;
  }
  within_transaction-IsAtomic true commits work end db made h =
      rw (attempt, h)
        (record {
          closed = ground arith;
          success = ground arith;
          published = ground arith;
          all_or_nothing = ground arith;
          discarded = ground arith;
          panics_on = ground arith;
        })
