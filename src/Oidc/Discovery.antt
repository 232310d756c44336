-- ===== src/Oidc/Discovery.antt =====
-- auth/oidc/discovery.go: the metadata and keys of the pinned issuer. HTTP, JSON and URLs are
-- parameters. A call returns its result and the requests that it sent, in order.
pub mod Vetted
pub mod Tests
use stumpfworks_framework.Base.{
  ℕ, ◌+◌, ◌*◌, ◌^◌, Bool, true, false, not, ◌&&◌, ◌||◌, List, [], ◌∷◌, ◌++◌, Option, none, some,
  Bytes, eqb, any, is_empty, codes, if◌then◌else◌, Result, ok, err,
}
use stumpfworks_framework.Oidc.Transactions.{hour}
use stumpfworks_framework.Oidc.Fetch.{Response, Client, use_last_response, body_of}
use stumpfworks_framework.Oidc.Urls.{Url, valid_issuer, same_origin_endpoint}
use stumpfworks_framework.Oidc.Verify.{Verifier, Jwk, new_verifier, max_jwks_bytes}

abbrev pub max_metadata_bytes : ℕ
max_metadata_bytes = 32 * 2 ^ 10

pub record Configuration (Key : Type 0) : Type 0 where
  pub authorization_endpoint : Bytes
  pub token_endpoint : Bytes
  pub introspection_endpoint : Bytes
  pub verifier : Verifier Key
  pub valid_until : ℕ

-- `metadata`
pub record Metadata : Type 0 where
  pub issuer : Bytes
  pub authorization_endpoint : Bytes
  pub token_endpoint : Bytes
  pub introspection_endpoint : Bytes
  pub jwks_uri : Bytes
  pub response_types : List Bytes
  pub challenge_methods : List Bytes
  pub signing_algorithms : List Bytes

pub data Error : Type 0 where
  invalid_discovery discovery_failed invalid_metadata jwks_failed invalid_jwks : Error

-- What the standard library does here. `get` is a request by a client with the bound of its body,
-- `default_client` is `http.DefaultClient`, `raw_value` decodes a `json.RawMessage`, `decode_set` a key set, and `trimmed` is
-- `strings.TrimSpace`.
pub record Net (Key : Type 0) : Type 0 where
  pub parse_url : Bytes → Option Url
  pub default_client : Client
  pub get : Client → Bytes → ℕ → Option Response
  pub decode_metadata : Bytes → Option Metadata
  pub raw_value : Bytes → Option Bytes
  pub trimmed : Bytes → Bytes
  pub decode_set : Bytes → Option (List (Jwk Key))

-- A request that `client.Do` is given.
pub record Request : Type 0 where
  pub client : Client
  pub address : Bytes

-- `slices.Contains`
abbrev pub contains : List Bytes → Bytes → Bool
contains texts t = any (λ a. eqb a t) texts

abbrev pub well_known : Bytes → Bytes
well_known issuer = issuer ++ codes "/.well-known/openid-configuration"

module _ {Key : Type 0} (net : Net Key) where
  -- The copy of the client, which may be nil, that follows no redirect.
  pub copy_client : Option Client → Client
  copy_client none = record (net.default_client) { check_redirect = use_last_response }
  copy_client (some client) = record client { check_redirect = use_last_response }

  pub fetch_json : {A : Type 0} → (Bytes → Option A) → Client → Bytes → ℕ → Option A
  fetch_json decode client address limit =
      elim (body_of limit (net.get client address (limit + 1))) [
        | none ↦ none
        | some contents ↦ decode contents
      ]

  pub on_origin : Bytes → Bytes → Bool
  on_origin issuer endpoint = same_origin_endpoint net.parse_url issuer endpoint

  pub metadata_ok : Bytes → Metadata → Bool
  metadata_ok issuer m =
      eqb m.issuer issuer
      && on_origin issuer m.authorization_endpoint
      && on_origin issuer m.token_endpoint
      && on_origin issuer m.jwks_uri
      && (is_empty m.introspection_endpoint || on_origin issuer m.introspection_endpoint)
      && contains m.response_types (codes "code")
      && contains m.challenge_methods (codes "S256")
      && contains m.signing_algorithms (codes "RS256")

  -- From the vetted metadata on; `now` is the time at the end.
  pub with_keys : ℕ → Bytes → Bytes → Client → Metadata → Result Error (Configuration Key)
  with_keys now issuer client_id client m =
      elim (fetch_json net.raw_value client m.jwks_uri max_jwks_bytes) [
        | none ↦ err jwks_failed
        | some jwks ↦
            elim (new_verifier (valid_issuer net.parse_url) net.trimmed net.decode_set issuer
              client_id jwks) [
                | err e ↦ err invalid_jwks
                | ok verifier ↦ ok (record {
                  authorization_endpoint = m.authorization_endpoint;
                  token_endpoint = m.token_endpoint;
                  introspection_endpoint = m.introspection_endpoint;
                  verifier = verifier;
                  valid_until = now + hour;
                })
              ]
      ]

  -- From the vetted arguments on.
  pub discover_from : ℕ → Bytes → Bytes → Client → Result Error (Configuration Key) × List Request
  discover_from now issuer client_id client =
      let first : Request = record { client = client; address = well_known issuer } in
      elim (fetch_json net.decode_metadata client (well_known issuer) max_metadata_bytes) [
        | none ↦ (err discovery_failed, first ∷ [])
        | some m ↦ if not (metadata_ok issuer m) then (err invalid_metadata, first ∷ []) else (
          with_keys now issuer client_id client m,
          first ∷ record { client = client; address = m.jwks_uri } ∷ [],
        )
      ]

  unfoldable pub discover :
      ℕ → Bool → Bytes → Bytes → Option Client → Result Error (Configuration Key) × List Request
  discover now has_context issuer client_id client =
      if not has_context || not (valid_issuer net.parse_url issuer) || is_empty client_id
      then (err invalid_discovery, [])
      else discover_from now issuer client_id (copy_client client)
