-- ===== src/Oidc/Store/OneUse.antt =====
-- auth/oidc/store.go: live logins are never evicted, and a stored login is handed out once, to the
-- browser that holds its secret.
use stumpfworks_framework.Base.{
  ℕ, ◌+◌, ◌≤◌, ◌≡◌, refl, ◌∙◌, ap, ◌≢◌, ◌⊎◌, inl, inr, false, Option, none, some, Bytes,
  Bytes-discrete, length, arith, lookup-insert, lookup-delete, Option-cases, Bool-cases, eqb, ok,
  err,
}
use stumpfworks_framework.Oidc.Base64.{decode_binding}
use stumpfworks_framework.Oidc.Transactions.{Heap, has_expired, transaction_lifetime}
use stumpfworks_framework.Oidc.Store.{
  login_failed, TransactionStore, PendingEntry, is_dead, find, remove, failed, put_fresh, put,
  take_entry, take,
}
use stumpfworks_framework.Oidc.Store.Bounds.{make_room, find-make_room, put_cases, take_cases}

find-remove : (s : TransactionStore) (state : Bytes) → find (remove s state) state ≡ none
find-remove s state = ground (arith, lookup-delete Bytes-discrete state state s.entries)

find-remove_ne :
    (s : TransactionStore) (state other : Bytes)
    → state ≢ other
    → find (remove s state) other ≡ find s other
find-remove_ne s state other h = ground (arith, lookup-delete Bytes-discrete other state s.entries)

module _ (sha256 : Bytes → Bytes) where
  -- The text of a secret whose hash is stored.
  abbrev pub IsBound : Bytes → PendingEntry → Type 0
  IsBound binding e =
      (decoded : Bytes) × (decode_binding binding ≡ some decoded)
      × (sha256 decoded ≡ e.binding_hash)

  put_fresh_keeps :
      (now : ℕ) (heap : Heap) (a : ℕ) (decoded state : Bytes) (s : TransactionStore)
      (e : PendingEntry)
      → find s state ≡ some e
      → find (put_fresh sha256 now heap a decoded s).1 state ≡ some e
  unfolding put_fresh
  put_fresh_keeps now heap a decoded state s e there =
      let entry : PendingEntry = record { transaction = a; binding_hash = sha256 decoded } in
      ground (arith, lookup-insert Bytes-discrete state (heap a).state entry s.entries)

  -- `Put` never evicts or replaces a login that has neither expired when the store is pruned nor been
  -- used, whether it succeeds or fails.
  pub put_keeps_live :
      (pruned_at now : ℕ) (heap : Heap) (a : Option ℕ) (binding state : Bytes)
      (s : TransactionStore) (e : PendingEntry)
      → find s state ≡ some e
      → is_dead pruned_at heap e ≡ false
      → find (put sha256 pruned_at now heap a binding s).1 state ≡ some e
  unfolding put
  put_keeps_live pruned_at now heap none binding state s e there live = there
  put_keeps_live pruned_at now heap (some a) binding state s e there live =
      put_cases sha256 (λ r. find r.1 state ≡ some e) pruned_at now heap a binding s there
        λ decoded _.
          put_fresh_keeps now heap a decoded state (make_room pruned_at heap s) e
            (find-make_room pruned_at heap s state e there live)

  -- What a successful `Take` has established.
  pub record IsTaken (now : ℕ) (heap later : Heap) (state binding : Bytes) (s s' : TransactionStore)
      (a : ℕ) : Type 0 where
    pub entry : PendingEntry
    pub decoded : Bytes
    pub there : find s state ≡ some entry
    pub canonical : decode_binding binding ≡ some decoded
    pub bound : sha256 decoded ≡ entry.binding_hash
    pub transaction : a ≡ entry.transaction
    pub young : now ≤ (heap entry.transaction).created_at + transaction_lifetime
    pub fresh : (heap entry.transaction).used ≡ false
    pub unused : (later a).used ≡ false
    pub removed : s' ≡ remove s state

  take_entry-IsTaken :
      (now : ℕ) (heap later : Heap) (state binding decoded : Bytes) (e : PendingEntry)
      (s s' : TransactionStore) (a : ℕ)
      → decode_binding binding ≡ some decoded
      → find s state ≡ some e
      → take_entry sha256 now heap later state decoded e s ≡ (ok a, s')
      → IsTaken now heap later state binding s s' a
  unfolding take_entry
  take_entry-IsTaken now heap later state binding decoded e s s' a good there r = record {
    entry = e;
    decoded = decoded;
    there = there;
    canonical = good;
    bound = ground arith;
    transaction = ground arith;
    young = ground arith;
    fresh = ground arith;
    unused = ground arith;
    removed = ground arith;
  }

  -- A `Take` that succeeds found its state, was given the text of a secret whose hash was stored with
  -- it, and hands out the stored pointer, whose transaction was neither expired nor used; the entry is
  -- gone afterwards.
  pub take-IsTaken :
      (now : ℕ) (heap later : Heap) (state binding : Bytes) (s s' : TransactionStore) (a : ℕ)
      → take sha256 now heap later state binding s ≡ (ok a, s')
      → IsTaken now heap later state binding s s' a
  take-IsTaken now heap later state binding s s' a =
      take_cases sha256 (λ r. r ≡ (ok a, s') → IsTaken now heap later state binding s s' a) now heap
        later state binding s (λ e. cc)
        λ decoded e good there.
          take_entry-IsTaken now heap later state binding decoded e s s' a good there

  take_missing :
      (now : ℕ) (heap later : Heap) (state binding : Bytes) (s : TransactionStore)
      → find s state ≡ none
      → take sha256 now heap later state binding s ≡ failed s
  take_missing now heap later state binding s gone =
      take_cases sha256 (λ r. r ≡ failed s) now heap later state binding s refl
        λ decoded e good there. absurd (ground arith)

  -- A login is handed out once: after a `Take` that succeeds each further one of its state fails,
  -- whatever secret it is given, and leaves the store as it is.
  pub take_once :
      (now now' : ℕ) (heap later heap' later' : Heap) (state binding binding' : Bytes)
      (s s' : TransactionStore) (a : ℕ)
      → take sha256 now heap later state binding s ≡ (ok a, s')
      → take sha256 now' heap' later' state binding' s' ≡ (err login_failed, s')
  take_once now now' heap later heap' later' state binding binding' s s' a e =
      let taken = take-IsTaken now heap later state binding s s' a e in
      take_missing now' heap' later' state binding' s'
        (ap (λ t. find t state) taken.removed ∙ find-remove s state)

  take_entry_keeps :
      (now : ℕ) (heap later : Heap) (state other binding decoded : Bytes) (d e : PendingEntry)
      (s : TransactionStore)
      → decode_binding binding ≡ some decoded
      → find s state ≡ some d
      → find s other ≡ some e
      → is_dead now heap e ≡ false
      → (later e.transaction).used ≡ false
      → let run = take_entry sha256 now heap later state decoded d s in
        (find run.1 other ≡ some e)
        ⊎ ((other ≡ state) × (run.0 ≡ ok e.transaction) × IsBound binding e)
  unfolding take_entry
  take_entry_keeps now heap later state other binding decoded d e s good there found live unused =
      elim (Bytes-discrete state other) [
        | no distinct ↦ inl (ground (arith, find-remove_ne s state other distinct))
        | yes same ↦
            let it : d ≡ e = ground arith in
            elim (Bool-cases (eqb (sha256 decoded) e.binding_hash)) [
              | inr wrong ↦ inl (ground arith)
              | inl bound ↦ inr (ground arith, ground arith, (decoded, good, ground arith))
            ]
      ]

  -- `Take` evicts no live login: whatever state and secret it is given, and whatever it returns, a
  -- login that has not expired and has not been used stays in the store, unless it is itself handed
  -- out, for its own state and a secret with the stored hash.
  pub take_keeps_live :
      (now : ℕ) (heap later : Heap) (state other binding : Bytes) (s : TransactionStore)
      (e : PendingEntry)
      → find s other ≡ some e
      → is_dead now heap e ≡ false
      → (later e.transaction).used ≡ false
      → let run = take sha256 now heap later state binding s in
        (find run.1 other ≡ some e)
        ⊎ ((other ≡ state) × (run.0 ≡ ok e.transaction) × IsBound binding e)
  take_keeps_live now heap later state other binding s e found live unused =
      take_cases sha256
        (λ run.
          (find run.1 other ≡ some e)
          ⊎ ((other ≡ state) × (run.0 ≡ ok e.transaction) × IsBound binding e))
        now heap later state binding s (inl found)
        λ decoded d good there.
          take_entry_keeps now heap later state other binding decoded d e s good there found live
            unused

  put_fresh_stored :
      (now : ℕ) (heap : Heap) (a : ℕ) (decoded : Bytes) (s s' : TransactionStore)
      → put_fresh sha256 now heap a decoded s ≡ (ok tt, s')
      → find s' (heap a).state ≡ some (record { transaction = a; binding_hash = sha256 decoded })
  unfolding put_fresh
  put_fresh_stored now heap a decoded s s' e =
      let entry : PendingEntry = record { transaction = a; binding_hash = sha256 decoded } in
      ground (arith, lookup-insert Bytes-discrete (heap a).state (heap a).state entry s.entries)

  -- What a successful `Put` has stored.
  pub put_stored :
      (pruned_at now : ℕ) (heap : Heap) (a : ℕ) (binding : Bytes) (s s' : TransactionStore)
      → put sha256 pruned_at now heap (some a) binding s ≡ (ok tt, s')
      → (decoded : Bytes) × (decode_binding binding ≡ some decoded)
        × (find s' (heap a).state
            ≡ some (record { transaction = a; binding_hash = sha256 decoded }))
  unfolding put_fresh
  put_stored pruned_at now heap a binding s s' =
      put_cases sha256
        (λ r.
          r ≡ (ok tt, s')
          → (decoded : Bytes) × (decode_binding binding ≡ some decoded)
            × (find s' (heap a).state
                ≡ some (record { transaction = a; binding_hash = sha256 decoded })))
        pruned_at now heap a binding s (λ e. absurd (ground arith))
        λ decoded good r.
          (decoded, good, put_fresh_stored now heap a decoded (make_room pruned_at heap s) s' r)

  put_state_length :
      (pruned_at now : ℕ) (heap : Heap) (a : ℕ) (binding : Bytes) (s s' : TransactionStore)
      → put sha256 pruned_at now heap (some a) binding s ≡ (ok tt, s')
      → length (heap a).state ≡ 43
  unfolding put
  put_state_length pruned_at now heap a binding s s' e =
      elim (Option-cases (decode_binding binding)) [
        | inl bad ↦ absurd (ground arith)
        | inr (decoded, good) ↦ ground arith
      ]

  -- What `Put` stores, `Take` hands out to the same browser, as long as the login has not expired and
  -- has not been used.
  pub take-put :
      (pruned_at now now' : ℕ) (heap heap' later : Heap) (a : ℕ) (binding : Bytes)
      (s s' : TransactionStore)
      → put sha256 pruned_at now heap (some a) binding s ≡ (ok tt, s')
      → has_expired now' (heap' a) ≡ false
      → (heap' a).used ≡ false
      → (later a).used ≡ false
      → take sha256 now' heap' later (heap a).state binding s' ≡ (ok a, remove s' (heap a).state)
  unfolding take take_entry
  take-put pruned_at now now' heap heap' later a binding s s' e fresh unused unused' =
      let (decoded, good, stored) = put_stored pruned_at now heap a binding s s' e in
      rw (good, take, stored, put_state_length pruned_at now heap a binding s s' e) (ground arith)
