-- ===== src/Oidc/Discovery/Tests.antt =====
-- auth/oidc/discovery_test.go: metadata and keys of an issuer, and metadata with an endpoint of another
-- origin.
use stumpfworks_framework.Base.{
  ℕ, ◌+◌, ◌≡◌, refl, true, false, [], ◌∷◌, none, some, Option, Bytes, codes, eqb, ok, err,
  if◌then◌else◌,
}
use stumpfworks_framework.Oidc.Transactions.{hour}
use stumpfworks_framework.Oidc.Fetch.{unset, use_last_response, body_of}
use stumpfworks_framework.Oidc.Urls.{Url, valid_issuer, same_origin_endpoint}
use stumpfworks_framework.Oidc.Verify.Tests.{
  issuer, client_id, now, verifier, one_key, as_is, verified,
}
use stumpfworks_framework.Oidc.Discovery.{
  Net, Configuration, Metadata, Request, copy_client, invalid_metadata, fetch_json, on_origin,
  metadata_ok, with_keys, discover_from, discover, well_known,
}

abbrev pub endpoint : Bytes
endpoint = codes "https://id.example/e"

-- What parses here: the issuer, an endpoint of its origin, and any other text as one of another.
abbrev pub parse_url : Bytes → Option Url
parse_url text = some (record {
  scheme = codes "https";
  host =
      if eqb text issuer
      then codes "id.example"
      else if eqb text endpoint
      then codes "id.example"
      else codes "x";
  has_user = false;
  path = if eqb text issuer then [] else codes "/e";
  raw_query = [];
  force_query = false;
  fragment = [];
  opaque = [];
  text = text;
})

abbrev metadata : Bytes → Metadata
metadata jwks_uri = record {
  issuer = issuer;
  authorization_endpoint = endpoint;
  token_endpoint = endpoint;
  introspection_endpoint = [];
  jwks_uri = jwks_uri;
  response_types = codes "code" ∷ [];
  challenge_methods = codes "S256" ∷ [];
  signing_algorithms = codes "RS256" ∷ [];
}

abbrev pub net : Bytes → Net ℕ
net jwks_uri = record {
  parse_url = parse_url;
  default_client = record { check_redirect = unset; transport = 0 };
  get = λ client address limit. some (record { status = 200; contents = some (codes "{}") });
  decode_metadata = λ body. some (metadata jwks_uri);
  raw_value = λ body. some body;
  trimmed = as_is;
  decode_set = one_key;
}

abbrev pub configuration : Configuration ℕ
configuration = record {
  authorization_endpoint = endpoint;
  token_endpoint = endpoint;
  introspection_endpoint = [];
  verifier = verifier;
  valid_until = now + hour;
}

code : Unit {0}
unfolding discover copy_client discover_from with_keys metadata_ok on_origin fetch_json body_of
    valid_issuer same_origin_endpoint verified
code = tt

abbrev request : Bytes → Request
request address = record {
  client = record { check_redirect = use_last_response; transport = 0 };
  address = address;
}

pub discovers :
    discover (net endpoint) now true issuer client_id none
    ≡ (ok configuration, request (well_known issuer) ∷ request endpoint ∷ [])
unfolding code
discovers = refl

stays :
    discover (net (codes "https://x/e")) now true issuer client_id none
    ≡ (err invalid_metadata, request (well_known issuer) ∷ [])
unfolding code
stays = refl
