-- ===== src/Oidc/Begin/Pkce.antt =====
-- auth/oidc/login.go: a login from `Begin` to the token request.
use stumpfworks_framework.Base.{
  ℕ, ◌≤◌, ◌+◌, ◌≡◌, ◌≢◌, ◌-◌, inl, inr, ap, ◌∙◌, Bool, true, false, List, [], ◌∷◌, some, Bytes,
  length, ltb, arith, ok, Option-cases,
}
use stumpfworks_framework.Oidc.Transactions.{
  Transaction, Heap, transaction_lifetime, clock_skew, mark_used, update,
}
use stumpfworks_framework.Oidc.Base64.{random_url_string}
use stumpfworks_framework.Oidc.Verify.{Jose}
use stumpfworks_framework.Oidc.Login.{
  LoginClient, Callback, Web, Clock, Outcome, is_owner, max_code_bytes, request_of, callback_ok,
  exchange, complete,
}
use stumpfworks_framework.Oidc.Login.Complete.{consumed}
use stumpfworks_framework.Oidc.Begin.{Client, Draws, login_client, challenge_of, query_of, begin}

-- The callback of a user agent that brings a state and a code.
abbrev pub callback_with : Bytes → Bytes → Callback
callback_with state code = record { states = state ∷ []; codes_given = code ∷ []; errors = [] }

module _ (jose : Jose) (web : Web) (clock : Clock) (sha256 : Bytes → Bytes)
    (with_query : Bytes → List (Bytes × Bytes) → Bytes) where
  -- What a login is begun with.
  pub record IsBegun (p : ℕ) (c : Client jose.Key) (d : Draws) (url : Bytes) (t : Transaction)
      : Type 0 where
    pub owner : t.owner ≡ some p
    pub unused : t.used ≡ false
    pub state : random_url_string d.state ≡ some t.state
    pub created : t.created_at ≡ d.created_at
    pub address :
        url
        ≡ with_query c.configuration.authorization_endpoint
            (query_of c t.state t.nonce (challenge_of sha256 t.verifier))

  pub begun :
      (p : ℕ) (c : Client jose.Key) (d : Draws) (url : Bytes) (t : Transaction)
      → begin sha256 with_query p c d ≡ ok (url, t)
      → IsBegun p c d url t
  unfolding begin
  begun p c d url t e = elim (Option-cases (random_url_string d.state)) [
    | inl lost ↦ absurd (ground arith)
    | inr (state, a) ↦ elim (Option-cases (random_url_string d.nonce)) [
      | inl lost ↦ absurd (ground arith)
      | inr (nonce, b) ↦ elim (Option-cases (random_url_string d.verifier)) [
        | inl lost ↦ absurd (ground arith)
        | inr (verifier, v) ↦ record {
          owner = ground arith;
          unused = ground arith;
          state = ground arith;
          created = ground arith;
          address = ground arith;
        }
      ]
    ]
  ]

  exchanged :
      (client : LoginClient jose.Key) (heap : Heap) (t : Transaction) (code : Bytes)
      (wants_token : Bool)
      → t.created_at ≤ clock.second + clock_skew
      → clock.first ≤ t.created_at + transaction_lifetime
      → code ≢ []
      → length code ≤ max_code_bytes
      → web.builds (request_of client (callback_with t.state code) t) ≡ true
      → (exchange jose web clock client heap t (callback_with t.state code) wants_token).sent
        ≡ some (request_of client (callback_with t.state code) t)
  unfolding exchange callback_ok
  exchanged client heap t code wants_token early in_time given short builds =
      let fresh : ltb transaction_lifetime (clock.first - t.created_at) ≡ false = ground arith in
      let past : ltb (clock.second + clock_skew) t.created_at ≡ false = ground arith in ground arith

  runs :
      (clients : ℕ → LoginClient jose.Key) (heap : Heap) (p a : ℕ) (k : Callback)
      (wants_token : Bool)
      → (heap a).owner ≡ some p
      → (heap a).used ≡ false
      → complete jose web clock clients heap (some p) true (some a) k wants_token
        ≡ exchange jose web clock (clients p) (mark_used heap a) (heap a) k wants_token
  unfolding complete
  runs clients heap p a k wants_token owned unused =
      let own : is_owner p (heap a).owner ≡ true = rw owned (ground arith) in ground arith

  -- A login that `Begin` starts comes to its token request: where the stored transaction is as it was
  -- begun, its client has a context, the request can be built, and the callback brings its state and
  -- one code of 1 to 4096 bytes, at most five minutes after the start by the clock and at most a minute
  -- before it, the client sends a request with that code and with the verifier whose SHA-256 hash, in
  -- base64, is the challenge in the address that `Begin` returned; the transaction is used then.
  pub begin_then_complete :
      (p a : ℕ) (c : Client jose.Key) (d : Draws) (url code : Bytes) (t : Transaction)
      (clients : ℕ → LoginClient jose.Key) (heap : Heap) (wants_token : Bool)
      → begin sha256 with_query p c d ≡ ok (url, t)
      → heap a ≡ t
      → clients p ≡ login_client c
      → d.created_at ≤ clock.second + clock_skew
      → clock.first ≤ d.created_at + transaction_lifetime
      → code ≢ []
      → length code ≤ max_code_bytes
      → web.builds (request_of (login_client c) (callback_with t.state code) t) ≡ true
      → let outcome =
          complete jose web clock clients heap
            (some p)
            true
            (some a)
            (callback_with t.state code)
            wants_token in
        (outcome.sent ≡ some (request_of (login_client c) (callback_with t.state code) t))
        × (url
            ≡ with_query c.configuration.authorization_endpoint
                (query_of c t.state t.nonce (challenge_of sha256 t.verifier)))
        × ((outcome.heap a).used ≡ true)
  begin_then_complete p a c d url code t clients heap wants_token started stored client early
        in_time given short builds =
      let h = begun p c d url t started in
      let owned : (heap a).owner ≡ some p = rw stored h.owner in
      let unused : (heap a).used ≡ false = rw stored h.unused in
      let k = callback_with t.state code in
      (
        ap (λ (o : Outcome). o.sent) (runs clients heap p a k wants_token owned unused)
            ∙ rw (client, stored)
                (exchanged (login_client c) (update heap a (record t { used = true })) t code
                  wants_token (omega (arith, early, h.created)) (omega (arith, in_time, h.created))
                  given short builds),
        h.address,
        consumed jose web clock clients heap p a k wants_token owned,
      )
