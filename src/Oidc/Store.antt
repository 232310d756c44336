-- ===== src/Oidc/Store.antt =====
-- auth/oidc/store.go: the bounded, process-local store of pending logins. Each method runs under the
-- store's mutex and is one step here. SHA-256 is a parameter.
pub mod Bounds
pub mod OneUse
pub mod Tests
use stumpfworks_framework.Base.{
  ℕ, suc, Bool, true, false, not, ◌||◌, List, [], ◌∷◌, Option, none, some, Bytes, Bytes-discrete,
  length, ltb, leb, ◌==◌, eqb, if◌then◌else◌, lookup, insert, delete, delete_if, Result, ok, err,
}
use stumpfworks_framework.Oidc.Base64.{decode_binding}
use stumpfworks_framework.Oidc.Transactions.{Transaction, Heap, has_expired, is_future, is_nil}

abbrev pub max_pending_transactions : ℕ
max_pending_transactions = 10000

pub data Error : Type 0 where
  login_failed invalid_capacity : Error

-- `bindingHash` and the pointer to the transaction.
pub record PendingEntry : Type 0 where
  pub transaction : ℕ
  pub binding_hash : Bytes

pub record TransactionStore : Type 0 where
  pub capacity : ℕ
  pub entries : List (Bytes × PendingEntry)

-- `NewTransactionStore`. A negative capacity is refused like 0.
unfoldable pub new : ℕ → Result Error TransactionStore
new capacity =
    if ltb capacity 1 || ltb max_pending_transactions capacity
    then err invalid_capacity
    else ok (record { capacity = capacity; entries = [] })

-- An entry that `pruneExpired` deletes, and `Take` drops.
abbrev pub is_dead : ℕ → Heap → PendingEntry → Bool
is_dead now heap e = has_expired now (heap e.transaction) || (heap e.transaction).used

unfoldable pub prune_expired : ℕ → Heap → TransactionStore → TransactionStore
prune_expired now heap s = record s {
  entries = delete_if Bytes-discrete (is_dead now heap) s.entries;
}

abbrev pub find : TransactionStore → Bytes → Option PendingEntry
find s state = lookup Bytes-discrete state s.entries

abbrev pub remove : TransactionStore → Bytes → TransactionStore
remove s state = record s { entries = delete Bytes-discrete state s.entries }

abbrev pub failed : {A : Type 0} → TransactionStore → Result Error A × TransactionStore
failed s = (err login_failed, s)

module _ (sha256 : Bytes → Bytes) where
  -- `Put`, from `now := store.now()` on.
  unfoldable pub put_fresh :
      ℕ → Heap → ℕ → Bytes → TransactionStore → Result Error (Unit {0}) × TransactionStore
  put_fresh now heap a decoded s =
      let t = heap a in
      let entry : PendingEntry = record { transaction = a; binding_hash = sha256 decoded } in
      if has_expired now t || is_future now t
      then failed s
      else if not (is_nil (find s t.state)) || leb s.capacity (length s.entries)
      then failed s
      else (ok tt, record s { entries = insert Bytes-discrete t.state entry s.entries })

  -- `Put`, under the lock. `pruned_at` is the reading of the clock in `pruneExpired`, `now` the later
  -- one in `Put`.
  unfoldable pub put_locked :
      ℕ → ℕ → Heap → ℕ → Bytes → TransactionStore → Result Error (Unit {0}) × TransactionStore
  put_locked pruned_at now heap a decoded s =
      put_fresh now heap a decoded
        (if leb s.capacity (length s.entries) then prune_expired pruned_at heap s else s)

  unfoldable pub put :
      ℕ
      → ℕ
      → Heap
      → Option ℕ
      → Bytes
      → TransactionStore
      → Result Error (Unit {0}) × TransactionStore
  put pruned_at now heap none binding s = failed s
  put pruned_at now heap (some a) binding s =
      let t = heap a in
      elim (decode_binding binding) [
        | none ↦ failed s
        | some decoded ↦
            if is_nil t.owner || not (length t.state == 43) || t.used
            then failed s
            else put_locked pruned_at now heap a decoded s
      ]

  -- `Take`, for an entry that is there. The lock does not cover `used`, which another goroutine may
  -- set meanwhile: `later` is the heap at the second read.
  unfoldable pub take_entry :
      ℕ
      → Heap
      → Heap
      → Bytes
      → Bytes
      → PendingEntry
      → TransactionStore
      → Result Error ℕ × TransactionStore
  take_entry now heap later state decoded e s =
      if is_dead now heap e
      then failed (remove s state)
      else if not (eqb (sha256 decoded) e.binding_hash)
      then failed s
      else if (later e.transaction).used
      then failed (remove s state)
      else (ok e.transaction, remove s state)

  unfoldable pub take :
      ℕ → Heap → Heap → Bytes → Bytes → TransactionStore → Result Error ℕ × TransactionStore
  take now heap later state binding s = elim (decode_binding binding) [
    | none ↦ failed s
    | some decoded ↦ if not (length state == 43) then failed s else elim (find s state) [
      | none ↦ failed s
      | some e ↦ take_entry now heap later state decoded e s
    ]
  ]
