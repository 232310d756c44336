-- ===== src/Oidc/Login/Complete.antt =====
-- auth/oidc/login.go, `complete`: what a finished login has passed, and what it leaves behind.
use stumpfworks_framework.Base.{
  ℕ, ◌+◌, ◌≤◌, ◌≡◌, ◌≢◌, refl, Bool, true, false, List, [], ◌∷◌, Option, none, some, Bytes, length,
  ◌==◌, ok, arith, Option-cases, inl, inr, ◌<◌, codes, ℤ, pos, exceeds, positive_cases,
}
use stumpfworks_framework.Oidc.Transactions.{
  Transaction, Heap, mark_used, transaction_lifetime, clock_skew,
}
use stumpfworks_framework.Oidc.Fetch.{Response, body_of, body_of-eq-some}
use stumpfworks_framework.Oidc.Verify.{Jose, verify_id_token}
use stumpfworks_framework.Oidc.Login.{
  LoginClient, Callback, Token, LoginResult, Clock, Web, first_of, callback_ok, request_of,
  token_of, finish, access_token_ok, exchange, complete, max_code_bytes, max_token_response_bytes,
  to_duration,
}

-- One state and one code, no error, and the state of this transaction.
pub record IsCallback (c : Callback) (t : Transaction) : Type 0 where
  pub one_state : c.states ≡ t.state ∷ []
  pub code : Bytes
  pub one_code : c.codes_given ≡ code ∷ []
  pub some_code : code ≢ []
  pub short_code : length code ≤ max_code_bytes
  pub no_error : c.errors ≡ []

callback_states : (l : List Bytes) → length l == 1 ≡ true → l ≡ first_of l ∷ []
callback_states [] h = ground arith
callback_states (t ∷ []) h = refl
callback_states (t ∷ u ∷ more) h = ground arith

nothing : {A : Type 0} (l : List A) → length l == 0 ≡ true → l ≡ []
nothing [] h = refl
nothing (t ∷ more) h = ground arith

callback-IsCallback : (c : Callback) (t : Transaction) → callback_ok c t ≡ true → IsCallback c t
unfolding callback_ok
callback-IsCallback c t h =
    let one : c.states ≡ first_of c.states ∷ [] = callback_states c.states (ground arith) in
    let same : first_of c.states ≡ t.state = ground arith in
    record {
      one_state = cc;
      code = first_of c.codes_given;
      one_code = callback_states c.codes_given (ground arith);
      some_code = ground arith;
      short_code = ground arith;
      no_error = nothing c.errors (ground arith);
    }

not_above : (z : ℤ) (n m : ℕ) → z ≡ pos n → exceeds z (pos m) ≡ false → n ≤ m
not_above z n m same h = let h' : exceeds (pos n) (pos m) ≡ false = rw same at h in ground arith

-- A bearer token of 1 to 4096 bytes, for at most a day.
pub record IsBearer (web : Web) (token : Token) : Type 0 where
  pub some_token : token.access_token ≢ []
  pub short_token : length token.access_token ≤ max_code_bytes
  pub typed : web.equal_fold token.token_type (codes "Bearer") ≡ true
  pub lifetime : ℕ
  pub expires : token.expires_in ≡ pos lifetime
  pub not_over : 0 < lifetime
  pub within_day : lifetime ≤ 86400

module _ (jose : Jose) (web : Web) (clock : Clock) where
  open jose use {Key}

  access_token-IsBearer :
      (token : Token) → access_token_ok jose web clock token ≡ true → IsBearer web token
  unfolding access_token_ok
  access_token-IsBearer token e =
      let (n, expires, positive) = positive_cases token.expires_in (ground arith) in
      let bounded : exceeds token.expires_in (pos 86400) ≡ false = ground arith in
      record {
        some_token = ground arith;
        short_token = ground arith;
        typed = ground arith;
        lifetime = n;
        expires = expires;
        not_over = positive;
        within_day = not_above token.expires_in n 86400 expires bounded;
      }

  -- A login `r` that the transaction at `a` may end in.
  pub record IsLogin (client : LoginClient Key) (t : Transaction) (c : Callback)
      (wants_token : Bool) (r : LoginResult) : Type 0 where
    pub fresh : t.used ≡ false
    pub young : clock.first ≤ t.created_at + transaction_lifetime
    pub begun : t.created_at ≤ clock.second + clock_skew
    pub callback : IsCallback c t
    pub response : Response
    pub body : Bytes
    pub token : Token
    pub answered :
        web.send
          (record {
            endpoint = client.token_endpoint;
            code = callback.code;
            redirect_uri = client.redirect_uri;
            code_verifier = t.verifier;
            client_id = client.client_id;
            secret = client.secret;
          })
          (max_token_response_bytes + 1)
        ≡ some response
    pub success : response.status ≡ 200
    pub read : response.contents ≡ some body
    pub small : length body ≤ max_token_response_bytes
    pub decoded : web.decode body ≡ some token
    pub bearer : wants_token ≡ true → IsBearer web token
    pub verified :
        verify_id_token jose (some client.verifier) clock.third token.id_token t.nonce
        ≡ ok r.identity
    pub given :
        (r.access_token ≡ token.access_token) × (r.expires_in ≡ to_duration token.expires_in)

  -- A taken response, in full.
  taken :
      (response : Option Response) (token : Token)
      → token_of jose web clock response ≡ some token
      → (r : Response) × (body : Bytes) × (response ≡ some r)
        × (r.status ≡ 200)
        × (r.contents ≡ some body)
        × (length body ≤ max_token_response_bytes)
        × (web.decode body ≡ some token)
  unfolding token_of
  taken response token e = elim (Option-cases (body_of max_token_response_bytes response)) [
    | inl unread ↦ absurd (ground arith)
    | inr (body, read) ↦
        let (r, answered, success, contents, small) =
          body_of-eq-some max_token_response_bytes response body read in
        (r, body, answered, success, contents, small, ground arith)
  ]

  finished :
      (client : LoginClient Key) (t : Transaction) (wants_token : Bool) (found : Option Token)
      (r : LoginResult)
      → finish jose web clock client t wants_token found ≡ ok r
      → (token : Token) × (found ≡ some token)
        × (wants_token ≡ true → access_token_ok jose web clock token ≡ true)
        × (verify_id_token jose (some client.verifier) clock.third token.id_token t.nonce
            ≡ ok r.identity)
        × (r.access_token ≡ token.access_token)
        × (r.expires_in ≡ to_duration token.expires_in)
  unfolding finish
  finished client t wants_token none r e = cc
  finished client t wants_token (some token) r e =
      (token, refl, λ wanted. ground arith, ground arith, ground arith, ground arith)

  exchanged :
      (client : LoginClient Key) (heap : Heap) (t : Transaction) (c : Callback) (wants_token : Bool)
      (r : LoginResult)
      → t.used ≡ false
      → (exchange jose web clock client heap t c wants_token).result ≡ ok r
      → IsLogin client t c wants_token r
  unfolding exchange
  exchanged client heap t c wants_token r fresh e =
      let response = web.send (request_of client c t) (max_token_response_bytes + 1) in
      let done : finish jose web clock client t wants_token (token_of jose web clock response)
          ≡ ok r =
        ground arith in
      let (token, found, bearer, verified, access, expires) =
        finished client t wants_token (token_of jose web clock response) r done in
      let given = callback-IsCallback c t (ground arith) in
      let sent : first_of c.codes_given ≡ given.code = rw given.one_code refl in
      let (answer, body, answered, success, read, small, decoded) = taken response token found in
      record {
        fresh = fresh;
        young = ground arith;
        begun = ground arith;
        callback = given;
        response = answer;
        body = body;
        token = token;
        answered = rw (← sent) answered;
        success = success;
        read = read;
        small = small;
        decoded = decoded;
        bearer = λ wanted. access_token-IsBearer token (bearer wanted);
        verified = verified;
        given = (access, expires);
      }

  pub exchange-heap :
      (client : LoginClient Key) (heap : Heap) (t : Transaction) (c : Callback) (wants_token : Bool)
      → (exchange jose web clock client heap t c wants_token).heap ≡ heap
  unfolding exchange
  exchange-heap client heap t c wants_token = ground arith

  -- A login that `complete` returns is that of an unused transaction of the same client, at most five
  -- minutes old; the callback carries its state and one code, the token endpoint has answered its one
  -- request, and the identity is that of an ID token verified for its nonce.
  pub complete-IsLogin :
      (clients : ℕ → LoginClient Key) (heap : Heap) (p a : ℕ) (has_context : Bool) (c : Callback)
      (wants_token : Bool) (r : LoginResult)
      → (complete jose web clock clients heap (some p) has_context (some a) c wants_token).result
        ≡ ok r
      → (has_context ≡ true)
        × ((heap a).owner ≡ some p)
        × IsLogin (clients p) (heap a) c wants_token r
  unfolding complete
  complete-IsLogin clients heap p a has_context c wants_token r e =
      let fresh : (heap a).used ≡ false = ground arith in
      let done : (exchange jose web clock (clients p) (mark_used heap a) (heap a) c
            wants_token).result
          ≡ ok r =
        ground arith in
      (
        ground arith,
        ground arith,
        exchanged (clients p) (mark_used heap a) (heap a) c wants_token r fresh done,
      )

  pub consumed :
      (clients : ℕ → LoginClient Key) (heap : Heap) (p a : ℕ) (c : Callback) (wants_token : Bool)
      → (heap a).owner ≡ some p
      → ((complete jose web clock clients heap (some p) true (some a) c wants_token).heap a).used
        ≡ true
  unfolding complete
  consumed clients heap p a c wants_token owned =
      let kept = exchange-heap (clients p) (mark_used heap a) (heap a) c wants_token in
      rw owned (ground (arith, kept))
