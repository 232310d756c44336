-- ===== src/Oidc/Store/Bounds.antt =====
-- auth/oidc/store.go: the store stays within its capacity, and no live login is evicted.
use stumpfworks_framework.Base.{
  ℕ, not, ◌||◌, ◌==◌, ◌≤◌, ◌≡◌, refl, ◌∙◌, inl, inr, false, List, [], ◌∷◌, Option, none, some,
  Bytes, Bytes-discrete, length, arith, lookup-delete_if, length-insert-le, length-delete-le,
  length-delete_if-le, Option-cases, Bool-cases, Result, ok, leb, if◌then◌else◌,
}
use stumpfworks_framework.Oidc.Base64.{decode_binding}
use stumpfworks_framework.Oidc.Transactions.{Heap, is_nil}
use stumpfworks_framework.Oidc.Store.{
  Error, TransactionStore, PendingEntry, new, prune_expired, is_dead, find, remove, failed,
  put_fresh, put_locked, put, take_entry, take, max_pending_transactions,
}

-- What one step may do to a store: the capacity stays, and so does the bound.
pub record Keeps (s s' : TransactionStore) : Type 0 where
  pub capacity : s'.capacity ≡ s.capacity
  pub bounded : length s.entries ≤ s.capacity → length s'.entries ≤ s'.capacity

Keeps-refl : (s : TransactionStore) → Keeps s s
Keeps-refl s = record { capacity = refl; bounded = λ h. h }

Keeps-remove : (s : TransactionStore) (state : Bytes) → Keeps s (remove s state)
Keeps-remove s state = record {
  capacity = refl;
  bounded = λ h. omega (arith, length-delete-le Bytes-discrete state s.entries);
}

Keeps-prune : (now : ℕ) (heap : Heap) (s : TransactionStore) → Keeps s (prune_expired now heap s)
unfolding prune_expired
Keeps-prune now heap s = record {
  capacity = refl;
  bounded = λ h. omega (arith, length-delete_if-le Bytes-discrete (is_dead now heap) s.entries);
}

Keeps-trans : (s t u : TransactionStore) → Keeps s t → Keeps t u → Keeps s u
Keeps-trans s t u p q = record {
  capacity = q.capacity ∙ p.capacity;
  bounded = λ h. q.bounded (p.bounded h);
}

-- The store that `Put` goes on with: pruned if it was full.
pub make_room : ℕ → Heap → TransactionStore → TransactionStore
make_room now heap s = if leb s.capacity (length s.entries) then prune_expired now heap s else s

make_room-Keeps : (now : ℕ) (heap : Heap) (s : TransactionStore) → Keeps s (make_room now heap s)
unfolding make_room
make_room-Keeps now heap s = elim (Bool-cases (leb s.capacity (length s.entries))) [
  | inl full ↦ rw full (Keeps-prune now heap s)
  | inr room ↦ rw room (Keeps-refl s)
]

pub find-make_room :
    (now : ℕ) (heap : Heap) (s : TransactionStore) (state : Bytes) (e : PendingEntry)
    → find s state ≡ some e
    → is_dead now heap e ≡ false
    → find (make_room now heap s) state ≡ some e
unfolding make_room prune_expired
find-make_room now heap s state e there live =
    let spared = lookup-delete_if Bytes-discrete state (is_dead now heap) s.entries e there live in
    elim (Bool-cases (leb s.capacity (length s.entries))) [
      | inl full ↦ rw full spared
      | inr room ↦ rw room there
    ]

module _ (sha256 : Bytes → Bytes) where
  -- `Put` fails with the store unchanged, or goes on under the lock.
  pub put_cases {ℓ} :
      (P : Result Error (Unit {0}) × TransactionStore → Type ℓ) (pruned_at now : ℕ) (heap : Heap)
      (a : ℕ) (binding : Bytes) (s : TransactionStore)
      → P (failed s)
      → ((decoded : Bytes)
          → decode_binding binding ≡ some decoded
          → P (put_fresh sha256 now heap a decoded (make_room pruned_at heap s)))
      → P (put sha256 pruned_at now heap (some a) binding s)
  unfolding put put_locked make_room
  put_cases P pruned_at now heap a binding s refused goes_on =
      elim (Option-cases (decode_binding binding)) [
        | inl bad ↦ rw (bad, put) refused
        | inr (decoded, good) ↦
            elim (Bool-cases
              (is_nil (heap a).owner || not (length (heap a).state == 43) || (heap a).used)) [
                | inl bad ↦ rw (good, put, bad) refused
                | inr fine ↦ rw (good, put, fine) (goes_on decoded good)
              ]
      ]

  pub take_cases {ℓ} :
      (P : Result Error ℕ × TransactionStore → Type ℓ) (now : ℕ) (heap later : Heap)
      (state binding : Bytes) (s : TransactionStore)
      → P (failed s)
      → ((decoded : Bytes) (e : PendingEntry)
          → decode_binding binding ≡ some decoded
          → find s state ≡ some e
          → P (take_entry sha256 now heap later state decoded e s))
      → P (take sha256 now heap later state binding s)
  unfolding take
  take_cases P now heap later state binding s refused goes_on =
      elim (Option-cases (decode_binding binding)) [
        | inl bad ↦ rw (bad, take) refused
        | inr (decoded, good) ↦ elim (Bool-cases (length state == 43)) [
          | inr bad ↦ rw (good, take, bad) refused
          | inl fine ↦ elim (Option-cases (find s state)) [
            | inl missing ↦ rw (good, take, fine, missing) refused
            | inr (e, there) ↦ rw (good, take, fine, there) (goes_on decoded e good there)
          ]
        ]
      ]

  put_fresh-Keeps :
      (now : ℕ) (heap : Heap) (a : ℕ) (decoded : Bytes) (s : TransactionStore)
      → Keeps s (put_fresh sha256 now heap a decoded s).1
  unfolding put_fresh
  put_fresh-Keeps now heap a decoded s =
      let entry : PendingEntry = record { transaction = a; binding_hash = sha256 decoded } in
      let size = length-insert-le Bytes-discrete (heap a).state entry s.entries in
      record { capacity = ground arith; bounded = λ h. ground (arith, size) }

  put-Keeps :
      (pruned_at now : ℕ) (heap : Heap) (a : Option ℕ) (binding : Bytes) (s : TransactionStore)
      → Keeps s (put sha256 pruned_at now heap a binding s).1
  unfolding put
  put-Keeps pruned_at now heap none binding s = Keeps-refl s
  put-Keeps pruned_at now heap (some a) binding s =
      put_cases (λ r. Keeps s r.1) pruned_at now heap a binding s (Keeps-refl s)
        λ decoded _.
          Keeps-trans s (make_room pruned_at heap s) _ (make_room-Keeps pruned_at heap s)
            (put_fresh-Keeps now heap a decoded (make_room pruned_at heap s))

  take-Keeps :
      (now : ℕ) (heap later : Heap) (state binding : Bytes) (s : TransactionStore)
      → Keeps s (take sha256 now heap later state binding s).1
  unfolding take_entry
  take-Keeps now heap later state binding s =
      take_cases (λ r. Keeps s r.1) now heap later state binding s (Keeps-refl s)
        λ decoded e _ _.
          let removed = Keeps-remove s state in
          record { capacity = ground arith; bounded = λ h. ground (arith, removed.bounded h) }

-- The calls that a store gets, each with the clock and the heap that it reads.
pub data Call : Type 0 where
  puts : (pruned_at now : ℕ) (heap : Heap) (transaction : Option ℕ) (binding : Bytes) → Call
  takes : (now : ℕ) (heap later : Heap) (state binding : Bytes) → Call

module _ (sha256 : Bytes → Bytes) where
  pub apply : Call → TransactionStore → TransactionStore
  apply (puts pruned_at now heap a binding) s = (put sha256 pruned_at now heap a binding s).1
  apply (takes now heap later state binding) s = (take sha256 now heap later state binding s).1

  pub run : List Call → TransactionStore → TransactionStore
  run [] s = s
  run (c ∷ calls) s = run calls (apply c s)

  run-Keeps : (calls : List Call) (s : TransactionStore) → Keeps s (run calls s)
  unfolding run apply
  run-Keeps [] s = Keeps-refl s
  run-Keeps (puts pruned_at now heap a binding ∷ calls) s =
      Keeps-trans s _ _ (put-Keeps sha256 pruned_at now heap a binding s) (run-Keeps calls _)
  run-Keeps (takes now heap later state binding ∷ calls) s =
      Keeps-trans s _ _ (take-Keeps sha256 now heap later state binding s) (run-Keeps calls _)

  -- A new store never holds more entries than its capacity, which is between 1 and 10000, whatever
  -- calls it gets.
  pub run_bounded :
      (capacity : ℕ) (s : TransactionStore) (calls : List Call)
      → new capacity ≡ ok s
      → (length (run calls s).entries ≤ capacity)
        × (1 ≤ capacity)
        × (capacity ≤ max_pending_transactions)
  unfolding new
  run_bounded capacity s calls e =
      let kept = run-Keeps calls s in
      let empty : length s.entries ≤ s.capacity = ground arith in
      (ground (arith, kept.bounded empty, kept.capacity), ground arith, ground arith)
