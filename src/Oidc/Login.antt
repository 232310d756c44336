-- ===== src/Oidc/Login.antt =====
-- auth/oidc/login.go, `LoginClient`: one Authorization Code login with PKCE. Clients and transactions
-- are addresses. Building and sending the token request, the JSON decoder and `strings.EqualFold` are
-- parameters, and so are random bytes. The three readings of the clock may differ.
pub mod Complete
pub mod Once
pub mod Tests
use stumpfworks_framework.Base.{
  ℕ, suc, ◌+◌, ◌-◌, ◌*◌, ◌^◌, ◌%◌, Bool, true, false, not, ◌&&◌, ◌||◌, List, [], ◌∷◌, Option, none,
  some, Bytes, length, ltb, ◌==◌, eqb, codes, is_empty, if◌then◌else◌, Result, ok, err, ℤ, pos,
  negsuc, is_positive, exceeds,
}
use stumpfworks_framework.Oidc.Transactions.{
  Transaction, Heap, second, has_expired, is_future, mark_used, is_nil,
}
use stumpfworks_framework.Oidc.Fetch.{Response, body_of}
use stumpfworks_framework.Oidc.Verify.{Identity, Jose, Verifier, verify_id_token}

abbrev pub max_token_response_bytes : ℕ
max_token_response_bytes = 32 * 2 ^ 10

abbrev pub max_code_bytes : ℕ
max_code_bytes = 4096

pub record LoginClient (Key : Type 0) : Type 0 where
  pub verifier : Verifier Key
  pub token_endpoint : Bytes
  pub client_id : Bytes
  pub secret : Bytes
  pub redirect_uri : Bytes

-- The parameters of the callback that the code reads.
pub record Callback : Type 0 where
  pub states : List Bytes
  pub codes_given : List Bytes
  pub errors : List Bytes

pub record TokenRequest : Type 0 where
  pub endpoint : Bytes
  pub code : Bytes
  pub redirect_uri : Bytes
  pub code_verifier : Bytes
  pub client_id : Bytes
  pub secret : Bytes

pub record Token : Type 0 where
  pub id_token : Bytes
  pub access_token : Bytes
  pub token_type : Bytes
  pub expires_in : ℤ

pub record LoginResult : Type 0 where
  pub identity : Identity
  pub access_token : Bytes
  pub expires_in : ℤ

pub data Error : Type 0 where
  login_failed : Error

-- The result, the transactions after the call, and the request that was sent.
pub record Outcome : Type 0 where
  pub result : Result Error LoginResult
  pub heap : Heap
  pub sent : Option TokenRequest

pub record Clock : Type 0 where
  pub first : ℕ
  pub second : ℕ
  pub third : ℕ

-- What net/http, encoding/json and strings do here. `send` is given the bound for reading the body.
pub record Web : Type 0 where
  pub builds : TokenRequest → Bool
  pub send : TokenRequest → ℕ → Option Response
  pub decode : Bytes → Option Token
  pub equal_fold : Bytes → Bytes → Bool

abbrev pub first_of : List Bytes → Bytes
first_of [] = []
first_of (t ∷ more) = t

-- A 64-bit word as a signed number.
abbrev pub signed : ℕ → ℤ
signed m = if ltb m (2 ^ 63) then pos m else negsuc (2 ^ 64 - m - 1)

-- `time.Duration(seconds) * time.Second`, which wraps.
abbrev pub to_duration : ℤ → ℤ
to_duration (pos n) = signed (n * second % 2 ^ 64)
to_duration (negsuc n) = signed ((2 ^ 64 - (n + 1) * second % 2 ^ 64) % 2 ^ 64)

-- `transaction.owner == client`
abbrev pub is_owner : ℕ → Option ℕ → Bool
is_owner p none = false
is_owner p (some q) = q == p

-- `subtle.ConstantTimeCompare` is 1 exactly for equal bytes.
unfoldable pub callback_ok : Callback → Transaction → Bool
callback_ok c t =
    length c.states == 1
    && length c.codes_given == 1
    && length c.errors == 0
    && not (is_empty (first_of c.codes_given))
    && not (ltb max_code_bytes (length (first_of c.codes_given)))
    && eqb (first_of c.states) t.state

abbrev pub request_of : {Key : Type 0} → LoginClient Key → Callback → Transaction → TokenRequest
request_of client c t = record {
  endpoint = client.token_endpoint;
  code = first_of c.codes_given;
  redirect_uri = client.redirect_uri;
  code_verifier = t.verifier;
  client_id = client.client_id;
  secret = client.secret;
}

module _ (jose : Jose) (web : Web) (clock : Clock) where
  open jose use {Key}

  pub access_token_ok : Token → Bool
  access_token_ok token =
      not (is_empty token.access_token)
      && not (ltb max_code_bytes (length token.access_token))
      && web.equal_fold token.token_type (codes "Bearer")
      && is_positive token.expires_in
      && not (exceeds token.expires_in (pos 86400))

  -- The token that a response carries, if the code takes it.
  pub token_of : Option Response → Option Token
  token_of response = elim (body_of max_token_response_bytes response) [
    | none ↦ none
    | some contents ↦ web.decode contents
  ]

  -- From the decoded token on.
  pub finish : LoginClient Key → Transaction → Bool → Option Token → Result Error LoginResult
  finish client t wants_token none = err login_failed
  finish client t wants_token (some token) =
      if wants_token && not (access_token_ok token)
      then err login_failed
      else elim (verify_id_token jose (some client.verifier) clock.third token.id_token t.nonce) [
        | err e ↦ err login_failed
        | ok identity ↦ ok (record {
          identity = identity;
          access_token = token.access_token;
          expires_in = to_duration token.expires_in;
        })
      ]

  -- `complete`, once `used.Swap(true)` has found the transaction unused.
  unfoldable pub exchange : LoginClient Key → Heap → Transaction → Callback → Bool → Outcome
  exchange client heap t c wants_token =
      let request = request_of client c t in
      if has_expired clock.first t
        || is_future clock.second t
        || not (callback_ok c t)
        || not (web.builds request)
      then record { result = err login_failed; heap = heap; sent = none }
      else let response = web.send request (max_token_response_bytes + 1) in
        record {
          result = finish client t wants_token (token_of response);
          heap = heap;
          sent = some request;
        }

  -- `complete`; `client` and `transaction` may be nil, and so may the context.
  unfoldable pub complete :
      (ℕ → LoginClient Key) → Heap → Option ℕ → Bool → Option ℕ → Callback → Bool → Outcome
  complete clients heap none has_context transaction c wants_token = record {
    result = err login_failed;
    heap = heap;
    sent = none;
  }
  complete clients heap (some p) has_context none c wants_token = record {
    result = err login_failed;
    heap = heap;
    sent = none;
  }
  complete clients heap (some p) has_context (some a) c wants_token =
      if not has_context || not (is_owner p (heap a).owner)
      then record { result = err login_failed; heap = heap; sent = none }
      else if (heap a).used
      then record { result = err login_failed; heap = mark_used heap a; sent = none }
      else exchange (clients p) (mark_used heap a) (heap a) c wants_token

  -- `Transaction.Complete` and `Transaction.CompleteWithToken`: the client that began the login goes
  -- on.
  abbrev pub complete_own :
      (ℕ → LoginClient Key) → Heap → Bool → Option ℕ → Callback → Bool → Outcome
  complete_own clients heap has_context none c wants_token = record {
    result = err login_failed;
    heap = heap;
    sent = none;
  }
  complete_own clients heap has_context (some a) c wants_token = elim (heap a).owner [
    | none ↦ record { result = err login_failed; heap = heap; sent = none }
    | some p ↦ complete clients heap (some p) has_context (some a) c wants_token
  ]
