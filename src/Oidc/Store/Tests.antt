-- ===== src/Oidc/Store/Tests.antt =====
-- auth/oidc/store_test.go: a login that is stored and taken, and the theorems at it. The hash is the
-- identity here, which tells secrets apart as well as any.
use stumpfworks_framework.Base.{
  ℕ, zero, ◌*◌, suc, ◌+◌, ◌≤◌, ◌≡◌, ◌⊎◌, refl, false, [], ◌∷◌, some, Bytes, Bytes-discrete, length,
  ok, err, insert, lookup, delete, delete_if,
}
use stumpfworks_framework.Oidc.Base64.{decode_binding, encode, decode}
use stumpfworks_framework.Oidc.Transactions.{Transaction, Heap, second, minute}
use stumpfworks_framework.Oidc.Store.{
  login_failed, TransactionStore, PendingEntry, new, is_dead, find, put_fresh, put_locked,
  prune_expired, put, take_entry, take, max_pending_transactions,
}
use stumpfworks_framework.Oidc.Store.Bounds.{puts, run, run_bounded}
use stumpfworks_framework.Oidc.Store.OneUse.{
  IsTaken, put_keeps_live, take-IsTaken, IsBound, take_once, take_keeps_live,
}

abbrev bytes_of : ℕ → ℕ → Bytes
bytes_of zero b = []
bytes_of (suc n) b = b ∷ bytes_of n b

abbrev secret : Bytes
secret = encode (bytes_of 32 7)

abbrev other_secret : Bytes
other_secret = encode (bytes_of 32 8)

abbrev state : Bytes
state = encode (bytes_of 32 1)

abbrev login : Transaction
login = record {
  owner = some 0;
  state = state;
  nonce = encode (bytes_of 32 2);
  verifier = encode (bytes_of 32 3);
  created_at = 1000 * minute;
  used = false;
}

abbrev heap : Heap
heap a = login

abbrev start : ℕ
start = 1000 * minute

abbrev empty_store : TransactionStore
empty_store = record { capacity = 2; entries = [] }

abbrev pending : PendingEntry
pending = record { transaction = 5; binding_hash = bytes_of 32 7 }

abbrev stored : TransactionStore
stored = record { capacity = 2; entries = (state, pending) ∷ [] }

abbrev sha256 : Bytes → Bytes
sha256 b = b

code : Unit {0}
unfolding put put_locked put_fresh prune_expired take take_entry decode_binding decode encode insert
    lookup delete delete_if Bytes-discrete
code = tt

put_test : put sha256 start start heap (some 5) secret empty_store ≡ (ok tt, stored)
unfolding code
put_test = refl

take_test : take sha256 (start + second) heap heap state secret stored ≡ (ok 5, empty_store)
unfolding code
take_test = refl

late_test :
    take sha256 (start + 6 * minute) heap heap state secret stored ≡ (err login_failed, empty_store)
unfolding code
late_test = refl

found : find stored state ≡ some pending
unfolding code
found = refl

pending_live : is_dead start heap pending ≡ false
pending_live = refl

run_bounded_example :
    (length
        (run sha256
          (puts start start heap (some 5) secret ∷ puts start start heap (some 5) secret ∷ [])
          empty_store).entries
      ≤ 2)
    × (1 ≤ 2)
    × (2 ≤ max_pending_transactions)
unfolding new
run_bounded_example =
    run_bounded sha256 2 empty_store
      (puts start start heap (some 5) secret ∷ puts start start heap (some 5) secret ∷ []) refl

put_keeps_live_example :
    find (put sha256 start start heap (some 5) other_secret stored).1 state ≡ some pending
put_keeps_live_example =
    put_keeps_live sha256 start start heap (some 5) other_secret state stored pending found
      pending_live

take-IsTaken_example : IsTaken sha256 (start + second) heap heap state secret stored empty_store 5
take-IsTaken_example =
    take-IsTaken sha256 (start + second) heap heap state secret stored empty_store 5 take_test

take_once_example :
    take sha256 (start + second) heap heap state secret empty_store
    ≡ (err login_failed, empty_store)
take_once_example =
    take_once sha256 (start + second) (start + second) heap heap heap heap state secret secret
      stored empty_store 5 take_test

keeps_for_other : take sha256 start heap heap state other_secret stored ≡ (err login_failed, stored)
unfolding code
keeps_for_other = refl

take_keeps_live_example :
    let run = take sha256 start heap heap state other_secret stored in
    (find run.1 state ≡ some pending)
    ⊎ ((state ≡ state) × (run.0 ≡ ok 5) × IsBound sha256 other_secret pending)
take_keeps_live_example =
    take_keeps_live sha256 start heap heap state state other_secret stored pending found
      pending_live refl
