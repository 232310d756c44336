-- ===== src/Oidc/Begin.antt =====
-- auth/oidc/login.go, `NewLoginClient` and `Begin`: the start of a login. net/url, SHA-256 and random
-- bytes are parameters.
pub mod Pkce
pub mod Flow
pub mod Tests
use stumpfworks_framework.Base.{
  ℕ, Bool, true, false, not, ◌&&◌, ◌||◌, List, [], ◌∷◌, Option, none, some, Bytes, eqb, ltb, ◌==◌,
  is_empty, codes, if◌then◌else◌, Result, ok, err, ◌>>=◌, ◌>>◌, or_fail, reject_if,
}
use stumpfworks_framework.Oidc.Transactions.{Transaction}
use stumpfworks_framework.Oidc.Base64.{encode, random_url_string}
use stumpfworks_framework.Oidc.Urls.{Url, is_plain_https, valid_issuer, same_origin_endpoint}
use stumpfworks_framework.Oidc.Discovery.{Configuration}
use stumpfworks_framework.Oidc.Login.{LoginClient}

-- A client as `NewLoginClient` makes it, with its copy of the configuration.
pub record Client (Key : Type 0) : Type 0 where
  pub configuration : Configuration Key
  pub client_id : Bytes
  pub secret : Bytes
  pub redirect_uri : Bytes

-- What `complete` reads of it.
abbrev pub login_client : {Key : Type 0} → Client Key → LoginClient Key
login_client c = record {
  verifier = c.configuration.verifier;
  token_endpoint = c.configuration.token_endpoint;
  client_id = c.client_id;
  secret = c.secret;
  redirect_uri = c.redirect_uri;
}

pub data Error : Type 0 where
  bad_configuration bad_redirect no_client stale no_random : Error

-- The test of the redirect URI.
abbrev pub redirect_ok : Url → Bool
redirect_ok u = is_plain_https u && not (is_empty u.host) && not (is_empty u.path)

module _ {Key : Type 0} (parse_url : Bytes → Option Url) where
  -- The test of the configuration and the client's own settings.
  pub settings_ok : Configuration Key → Bytes → Bytes → Bool
  settings_ok c client_id secret =
      valid_issuer parse_url c.verifier.issuer
      && not (is_empty client_id)
      && eqb client_id c.verifier.client_id
      && not (is_empty secret)
      && same_origin_endpoint parse_url c.verifier.issuer c.authorization_endpoint
      && same_origin_endpoint parse_url c.verifier.issuer c.token_endpoint

  -- `NewLoginClient`; a configuration that is nil is `none`.
  unfoldable pub new_login_client :
      Option (Configuration Key) → Bytes → Bytes → Bytes → Result Error (Client Key)
  new_login_client configuration client_id secret redirect_uri = do
    c ← or_fail configuration bad_configuration
    reject_if (not (settings_ok c client_id secret)) bad_configuration
    redirect ← or_fail (parse_url redirect_uri) bad_redirect
    reject_if (not (redirect_ok redirect)) bad_redirect
    ok (record {
      configuration = c;
      client_id = client_id;
      secret = secret;
      redirect_uri = redirect_uri;
    })

-- What `rand.Read` draws for the state, the nonce and the verifier, and the two readings of the clock.
pub record Draws : Type 0 where
  pub state : Option Bytes
  pub nonce : Option Bytes
  pub verifier : Option Bytes
  pub checked_at : ℕ
  pub created_at : ℕ

abbrev pub challenge_of : (Bytes → Bytes) → Bytes → Bytes
challenge_of sha256 verifier = encode (sha256 verifier)

-- The query of the authorization request.
abbrev pub query_of : {Key : Type 0} → Client Key → Bytes → Bytes → Bytes → List (Bytes × Bytes)
query_of c state nonce challenge =
    (codes "response_type", codes "code")
    ∷ (codes "client_id", c.client_id)
    ∷ (codes "redirect_uri", c.redirect_uri)
    ∷ (codes "scope", codes "openid")
    ∷ (codes "state", state)
    ∷ (codes "nonce", nonce)
    ∷ (codes "code_challenge", challenge)
    ∷ (codes "code_challenge_method", codes "S256")
    ∷ []

-- `with_query` is the text of an address with this query.
module _ {Key : Type 0} (sha256 : Bytes → Bytes)
    (with_query : Bytes → List (Bytes × Bytes) → Bytes) where
  -- `Begin`, for the client at an address.
  unfoldable pub begin : ℕ → Client Key → Draws → Result Error (Bytes × Transaction)
  begin p c d = do
    reject_if
        (not (c.configuration.valid_until == 0)
          && not (ltb d.checked_at c.configuration.valid_until))
        stale
    state ← or_fail (random_url_string d.state) no_random
    nonce ← or_fail (random_url_string d.nonce) no_random
    verifier ← or_fail (random_url_string d.verifier) no_random
    ok (
      with_query c.configuration.authorization_endpoint
          (query_of c state nonce (challenge_of sha256 verifier)),
      record {
        owner = some p;
        state = state;
        nonce = nonce;
        verifier = verifier;
        created_at = d.created_at;
        used = false;
      },
    )
