-- ===== src/Oidc/Begin/Flow.antt =====
-- auth/oidc: a login from `Begin` through the store and back to the token request.
use stumpfworks_framework.Base.{
  ℕ, ◌+◌, ◌≤◌, ◌<◌, ◌≡◌, ◌≢◌, refl, Bool, true, false, not, ◌||◌, List, [], none, some, Bytes,
  Bytes-discrete, length, leb, ◌==◌, insert, ok, arith,
}
use stumpfworks_framework.Oidc.Transactions.{
  Transaction, Heap, transaction_lifetime, clock_skew, has_expired, is_future, is_nil,
}
use stumpfworks_framework.Oidc.Base64.{random_url_string, decode_binding}
use stumpfworks_framework.Oidc.Base64.RoundTrip.{AreBytes, random_url_string_accepted}
use stumpfworks_framework.Oidc.Store.{
  TransactionStore, PendingEntry, find, remove, put, put_locked, put_fresh, take,
}
use stumpfworks_framework.Oidc.Store.OneUse.{take-put}
use stumpfworks_framework.Oidc.Verify.{Jose}
use stumpfworks_framework.Oidc.Login.{LoginClient, Web, Clock, max_code_bytes, request_of, complete}
use stumpfworks_framework.Oidc.Begin.{Client, Draws, login_client, begin}
use stumpfworks_framework.Oidc.Begin.Pkce.{callback_with, begun, begin_then_complete}

-- A place in the store for a login that is neither too old nor from the future.
pub record HasRoom (now : ℕ) (t : Transaction) (s : TransactionStore) : Type 0 where
  pub free : find s t.state ≡ none
  pub room : length s.entries < s.capacity
  pub begun : t.created_at ≤ now + clock_skew
  pub young : now ≤ t.created_at + transaction_lifetime

module _ (sha256 : Bytes → Bytes) where
  -- The store with the entry that `Put` makes.
  abbrev pub stored : ℕ → Transaction → Bytes → TransactionStore → TransactionStore
  stored a t decoded s =
      let entry : PendingEntry = record { transaction = a; binding_hash = sha256 decoded } in
      record s { entries = insert Bytes-discrete t.state entry s.entries }

  put_accepts :
      (pruned_at now a : ℕ) (heap : Heap) (binding decoded : Bytes) (s : TransactionStore)
      → is_nil (heap a).owner ≡ false
      → (heap a).used ≡ false
      → length (heap a).state ≡ 43
      → decode_binding binding ≡ some decoded
      → HasRoom now (heap a) s
      → put sha256 pruned_at now heap (some a) binding s ≡ (ok tt, stored a (heap a) decoded s)
  unfolding put put_locked put_fresh
  put_accepts pruned_at now a heap binding decoded s owned unused size good h =
      let t = heap a in
      let fine : is_nil t.owner || not (length t.state == 43) || t.used ≡ false = ground arith in
      let spare : leb s.capacity (length s.entries) ≡ false = ground (arith, h.room) in
      let old : has_expired now t ≡ false = ground (arith, h.young) in
      let early : is_future now t ≡ false = ground (arith, h.begun) in
      rw (good, put, fine, put_locked, spare, put_fresh, old, early, h.free, spare) refl

module _ (jose : Jose) (web : Web) (clock : Clock) (sha256 : Bytes → Bytes)
    (with_query : Bytes → List (Bytes × Bytes) → Bytes) where
  -- A login that `Begin` starts with a state of 32 random bytes comes to its token request through the
  -- store: `Put` takes it under a secret of 32 random bytes, where the store has room and the state is
  -- new, `Take` gives it to the browser that brings that state and secret, and its client then sends
  -- the token request for a callback with the state and one code of 1 to 4096 bytes. This holds where
  -- net/http builds that request, the transaction is in the heap as it was begun, and the client is the
  -- one that began it; where `Put` and `complete` read the clock at most a minute before the start; and
  -- where `Put`, `Take` and `complete` read it at most five minutes after the start.
  pub begin-put-take-complete :
      (p a : ℕ) (c : Client jose.Key) (d : Draws) (url code : Bytes) (heap : Heap)
      (clients : ℕ → LoginClient jose.Key) (drawn secret binding : Bytes) (pruned_at now now' : ℕ)
      (s : TransactionStore) (wants_token : Bool)
      → begin sha256 with_query p c d ≡ ok (url, heap a)
      → d.state ≡ some drawn
      → length drawn ≡ 32
      → AreBytes drawn
      → random_url_string (some secret) ≡ some binding
      → length secret ≡ 32
      → AreBytes secret
      → HasRoom now (heap a) s
      → now' ≤ d.created_at + transaction_lifetime
      → clients p ≡ login_client c
      → d.created_at ≤ clock.second + clock_skew
      → clock.first ≤ d.created_at + transaction_lifetime
      → code ≢ []
      → length code ≤ max_code_bytes
      → let k = callback_with (heap a).state code in
        web.builds (request_of (login_client c) k (heap a)) ≡ true
        → (kept : TransactionStore) × (put sha256 pruned_at now heap (some a) binding s
            ≡ (ok tt, kept))
          × (take sha256 now' heap heap (heap a).state binding kept
              ≡ (ok a, remove kept (heap a).state))
          × ((complete jose web clock clients heap (some p) true (some a) k wants_token).sent
              ≡ some (request_of (login_client c) k (heap a)))
  begin-put-take-complete p a c d url code heap clients drawn secret binding pruned_at now now' s
        wants_token started from_state size all made size' all' room later client early in_time
        given short builds =
      let h = begun jose web clock sha256 with_query p c d url (heap a) started in
      let state : random_url_string (some drawn) ≡ some (heap a).state =
        rw (← from_state) (h.state) in
      let (_, state_size) = random_url_string_accepted drawn (heap a).state size all state in
      let (good, _) = random_url_string_accepted secret binding size' all' made in
      let owned : is_nil (heap a).owner ≡ false = ground (arith, h.owner) in
      let fresh : has_expired now' (heap a) ≡ false = ground (arith, h.created) in
      let put_it =
        put_accepts sha256 pruned_at now a heap binding secret s owned h.unused state_size good
          room in
      (
        stored sha256 a (heap a) secret s,
        put_it,
        take-put sha256 pruned_at now now' heap heap heap a binding s _ put_it fresh h.unused
            h.unused,
        (begin_then_complete jose web clock sha256 with_query p a c d url code (heap a) clients heap
            wants_token started refl client early in_time given short builds).0,
      )
