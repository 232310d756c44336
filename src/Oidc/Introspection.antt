-- ===== src/Oidc/Introspection.antt =====
-- auth/oidc/introspection.go: asking the issuer whether an access token is active. HTTP, JSON and
-- `strings.EqualFold` are parameters. A date beyond the range of Go's `time.Unix` wraps there; such
-- a token is refused with either reading, since its end is in the past or too far in the future.
pub mod Active
pub mod Tests
use stumpfworks_framework.Base.{
  ℕ, ◌+◌, ◌*◌, ◌^◌, Bool, true, false, not, ◌&&◌, ◌||◌, Option, none, some, [], Bytes, length, ltb,
  leb, eqb, is_empty, codes, if◌then◌else◌, Result, ok, err, ℤ, pos, negsuc, is_positive, exceeds,
}
use stumpfworks_framework.Oidc.Transactions.{second, hour, clock_skew}
use stumpfworks_framework.Oidc.Fetch.{Response, body_of}
use stumpfworks_framework.Oidc.Urls.{Url, same_origin_endpoint}
use stumpfworks_framework.Oidc.Verify.{epoch_seconds}
use stumpfworks_framework.Oidc.Login.{max_code_bytes}
use stumpfworks_framework.Oidc.Discovery.{Configuration}

abbrev pub max_introspection_response_bytes : ℕ
max_introspection_response_bytes = 32 * 2 ^ 10

-- The zero value of a time is 0.
pub record TokenStatus : Type 0 where
  pub active : Bool
  pub subject : Bytes
  pub session_id : Bytes
  pub scope : Bytes
  pub issued_at : ℕ
  pub expires_at : ℕ

pub record TokenIntrospector : Type 0 where
  pub endpoint : Bytes
  pub client_id : Bytes
  pub secret : Bytes

-- The answer that is decoded.
pub record Answer : Type 0 where
  pub active : Bool
  pub client_id : Bytes
  pub subject : Bytes
  pub session_id : Bytes
  pub scope : Bytes
  pub token_type : Bytes
  pub issued_at : ℤ
  pub expires_at : ℤ

pub record IntrospectionRequest : Type 0 where
  pub endpoint : Bytes
  pub token : Bytes
  pub client_id : Bytes
  pub secret : Bytes

pub data Error : Type 0 where
  invalid_configuration introspection_failed : Error

-- `NewTokenIntrospector`; a configuration that is nil is `none`.
unfoldable pub new_introspector :
    {Key : Type 0}
    → (parse_url : Bytes → Option Url) → Option (Configuration Key)
    → Bytes
    → Bytes
    → Result Error TokenIntrospector
new_introspector parse_url none client_id secret = err invalid_configuration
new_introspector parse_url (some c) client_id secret =
    if is_empty client_id
      || not (eqb client_id c.verifier.client_id)
      || is_empty secret
      || not (same_origin_endpoint parse_url c.verifier.issuer c.introspection_endpoint)
    then err invalid_configuration
    else ok (record { endpoint = c.introspection_endpoint; client_id = client_id; secret = secret })

-- `time.Unix(seconds, 0)`, for seconds after 1970; the code has refused others before it compares.
abbrev pub unix : ℤ → ℕ
unix (pos n) = (epoch_seconds + n) * second
unix (negsuc n) = 0

abbrev pub day : ℕ
day = 24 * hour

abbrev pub inactive : TokenStatus
inactive = record {
  active = false;
  subject = [];
  session_id = [];
  scope = [];
  issued_at = 0;
  expires_at = 0;
}

pub dates_ok : ℕ → Answer → Bool
dates_ok now a =
    is_positive a.issued_at
    && exceeds a.expires_at a.issued_at
    && leb (unix a.issued_at) (now + clock_skew)
    && ltb now (unix a.expires_at)
    && leb (unix a.expires_at) (now + day)

module _ (send : IntrospectionRequest → ℕ → Option Response) (decode : Bytes → Option Answer)
    (equal_fold : Bytes → Bytes → Bool) where
  -- What an active answer says of the token and its client.
  pub subject_ok : TokenIntrospector → Answer → Bool
  subject_ok i a =
      eqb a.client_id i.client_id
      && not (is_empty a.subject)
      && not (is_empty a.session_id)
      && equal_fold a.token_type (codes "Bearer")
      && leb (length a.subject) 1024
      && leb (length a.session_id) 1024
      && leb (length a.scope) 4096

  pub judge : ℕ → TokenIntrospector → Answer → Result Error TokenStatus
  judge now i a =
      if not a.active
      then ok inactive
      else if not (subject_ok i a) || not (dates_ok now a)
      then err introspection_failed
      else ok (record {
        active = true;
        subject = a.subject;
        session_id = a.session_id;
        scope = a.scope;
        issued_at = unix a.issued_at;
        expires_at = unix a.expires_at;
      })

  abbrev pub request_of : TokenIntrospector → Bytes → IntrospectionRequest
  request_of i token = record {
    endpoint = i.endpoint;
    token = token;
    client_id = i.client_id;
    secret = i.secret;
  }

  -- The decoded answer to the one request.
  pub ask : TokenIntrospector → Bytes → Option Answer
  ask i token =
      elim (body_of max_introspection_response_bytes
        (send (request_of i token) (max_introspection_response_bytes + 1))) [
          | none ↦ none
          | some contents ↦ decode contents
        ]

  unfoldable pub introspect : ℕ → Option TokenIntrospector → Bool → Bytes → Result Error TokenStatus
  introspect now none has_context token = err introspection_failed
  introspect now (some i) has_context token =
      if not has_context || is_empty token || ltb max_code_bytes (length token)
      then err introspection_failed
      else elim (ask i token) [ none ↦ err introspection_failed | some a ↦ judge now i a ]
