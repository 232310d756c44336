-- ===== src/Oidc/Discovery/Vetted.antt =====
-- auth/oidc/discovery.go: what a configuration of `Discover` has passed, and what is asked for.
use stumpfworks_framework.Base.{
  ℕ, ◌+◌, ◌≡◌, ◌⊎◌, inl, inr, Bool, true, [], none, some, Bytes, All, refl, is_empty, arith, codes,
  ok, Option, Option-cases, Bool-cases,
}
use stumpfworks_framework.Oidc.Transactions.{hour}
use stumpfworks_framework.Oidc.Urls.{valid_issuer}
use stumpfworks_framework.Oidc.Urls.Origins.{
  IsIssuer, IsOnOrigin, valid_issuer-IsIssuer, same_origin_endpoint-IsOnOrigin,
}
use stumpfworks_framework.Oidc.Fetch.{Client, use_last_response}
use stumpfworks_framework.Oidc.Verify.{new_verifier, max_jwks_bytes}
use stumpfworks_framework.Oidc.Discovery.{
  Net, Configuration, Metadata, Request, copy_client, well_known, max_metadata_bytes, contains,
  fetch_json, on_origin, metadata_ok, with_keys, discover_from, discover,
}

module _ {Key : Type 0} (net : Net Key) where
  -- The given client, or the default one, but it follows no redirect.
  abbrev pub IsStrict : Option Client → Client → Type 0
  IsStrict none asker =
      (asker.check_redirect ≡ use_last_response) × (asker.transport ≡ net.default_client.transport)
  IsStrict (some client) asker =
      (asker.check_redirect ≡ use_last_response) × (asker.transport ≡ client.transport)

  copy_client-IsStrict : (client : Option Client) → IsStrict client (copy_client net client)
  unfolding copy_client
  copy_client-IsStrict none = (refl, refl)
  copy_client-IsStrict (some client) = (refl, refl)

  -- A configuration all of whose parts the pinned issuer answers for.
  pub record IsVetted (now : ℕ) (issuer client_id : Bytes) (client : Option Client)
      (c : Configuration Key) : Type 0 where
    pub issuer_valid : IsIssuer net.parse_url issuer
    pub asker : Client
    pub asker_given : IsStrict client asker
    pub metadata : Metadata
    pub published :
        fetch_json net net.decode_metadata asker (well_known issuer) max_metadata_bytes
        ≡ some metadata
    pub same_issuer : metadata.issuer ≡ issuer
    pub authorization : IsOnOrigin net.parse_url issuer c.authorization_endpoint
    pub token : IsOnOrigin net.parse_url issuer c.token_endpoint
    pub introspection :
        (c.introspection_endpoint ≡ []) ⊎ IsOnOrigin net.parse_url issuer c.introspection_endpoint
    pub keys_origin : IsOnOrigin net.parse_url issuer metadata.jwks_uri
    pub code_flow : contains metadata.response_types (codes "code") ≡ true
    pub pkce : contains metadata.challenge_methods (codes "S256") ≡ true
    pub signing : contains metadata.signing_algorithms (codes "RS256") ≡ true
    pub jwks : Bytes
    pub fetched : fetch_json net net.raw_value asker metadata.jwks_uri max_jwks_bytes ≡ some jwks
    pub verifies :
        new_verifier (valid_issuer net.parse_url) net.trimmed net.decode_set issuer client_id jwks
        ≡ ok c.verifier
    pub hour_long : c.valid_until ≡ now + hour

  -- A request that follows no redirect, to an address of the issuer's origin.
  abbrev pub IsPinned : Bytes → Option Client → Request → Type 0
  IsPinned issuer client r =
      IsStrict client r.client
      × ((r.address ≡ well_known issuer) ⊎ IsOnOrigin net.parse_url issuer r.address)

  with_keys-eq-ok :
      (now : ℕ) (issuer client_id : Bytes) (client : Client) (m : Metadata) (c : Configuration Key)
      → with_keys net now issuer client_id client m ≡ ok c
      → (jwks : Bytes) × (fetch_json net net.raw_value client m.jwks_uri max_jwks_bytes ≡ some jwks)
        × (new_verifier
              (valid_issuer net.parse_url)
              net.trimmed
              net.decode_set
              issuer
              client_id
              jwks
            ≡ ok c.verifier)
        × (c.authorization_endpoint ≡ m.authorization_endpoint)
        × (c.token_endpoint ≡ m.token_endpoint)
        × (c.introspection_endpoint ≡ m.introspection_endpoint)
        × (c.valid_until ≡ now + hour)
  unfolding with_keys
  with_keys-eq-ok now issuer client_id client m c e =
      elim (Option-cases (fetch_json net net.raw_value client m.jwks_uri max_jwks_bytes)) [
        | inl missing ↦ absurd (ground arith)
        | inr (jwks, fetched) ↦
            (jwks, fetched, ground arith, ground arith, ground arith, ground arith, ground arith)
      ]

  on_origin_of :
      (issuer endpoint : Bytes)
      → on_origin net issuer endpoint ≡ true
      → IsOnOrigin net.parse_url issuer endpoint
  unfolding on_origin
  on_origin_of issuer endpoint e = same_origin_endpoint-IsOnOrigin net.parse_url issuer endpoint e

  keys_of :
      (issuer : Bytes) (m : Metadata)
      → metadata_ok net issuer m ≡ true
      → IsOnOrigin net.parse_url issuer m.jwks_uri
  unfolding metadata_ok
  keys_of issuer m e = on_origin_of issuer m.jwks_uri (ground arith)

  introspection_of :
      (issuer : Bytes) (m : Metadata) (c : Configuration Key)
      → metadata_ok net issuer m ≡ true
      → c.introspection_endpoint ≡ m.introspection_endpoint
      → (c.introspection_endpoint ≡ []) ⊎ IsOnOrigin net.parse_url issuer c.introspection_endpoint
  unfolding metadata_ok
  introspection_of issuer m c e same = elim (Bool-cases (is_empty c.introspection_endpoint)) [
    | inl empty ↦ inl (ground arith)
    | inr given ↦ inr (on_origin_of issuer c.introspection_endpoint (ground arith))
  ]

  vetted :
      (now : ℕ) (issuer client_id : Bytes) (client : Option Client) (c : Configuration Key)
      → valid_issuer net.parse_url issuer ≡ true
      → (discover_from net now issuer client_id (copy_client net client)).0 ≡ ok c
      → IsVetted now issuer client_id client c
  unfolding discover_from metadata_ok
  vetted now issuer client_id client c valid e =
      let asker = copy_client net client in
      elim (Option-cases
        (fetch_json net net.decode_metadata asker (well_known issuer) max_metadata_bytes)) [
          | inl missing ↦ absurd (ground arith)
          | inr (m, published) ↦
              let done : with_keys net now issuer client_id asker m ≡ ok c = ground arith in
              let (jwks, fetched, verifies, authorization, token, introspection, until) =
                with_keys-eq-ok now issuer client_id asker m c done in
              record {
                issuer_valid = valid_issuer-IsIssuer net.parse_url issuer valid;
                asker = asker;
                asker_given = copy_client-IsStrict client;
                metadata = m;
                published = published;
                same_issuer = ground arith;
                authorization = on_origin_of issuer c.authorization_endpoint (ground arith);
                token = on_origin_of issuer c.token_endpoint (ground arith);
                introspection = introspection_of issuer m c (ground arith) introspection;
                keys_origin = on_origin_of issuer m.jwks_uri (ground arith);
                code_flow = ground arith;
                pkce = ground arith;
                signing = ground arith;
                jwks = jwks;
                fetched = fetched;
                verifies = verifies;
                hour_long = until;
              }
        ]

  IsPinned-from :
      (now : ℕ) (issuer client_id : Bytes) (client : Option Client)
      → All
          (IsPinned issuer client)
          (discover_from net now issuer client_id (copy_client net client)).1
  unfolding discover_from
  IsPinned-from now issuer client_id client =
      let strict = copy_client-IsStrict client in
      elim (Option-cases (
        fetch_json net net.decode_metadata (copy_client net client) (well_known issuer)
          max_metadata_bytes)) [
            | inl missing ↦ rw (All, missing) ((strict, inl refl), tt)
            | inr (m, published) ↦ elim (Bool-cases (metadata_ok net issuer m)) [
              | inr bad ↦ rw (All, published, bad) ((strict, inl refl), tt)
              | inl fine ↦
                  rw (All, published, fine)
                    ((strict, inl refl), ((strict, inr (keys_of issuer m fine)), tt))
            ]
          ]

  pub discover-IsVetted :
      (now : ℕ) (has_context : Bool) (issuer client_id : Bytes) (client : Option Client)
      → All (IsPinned issuer client) (discover net now has_context issuer client_id client).1
        × ((c : Configuration Key)
            → (discover net now has_context issuer client_id client).0 ≡ ok c
            → IsVetted now issuer client_id client c)
  unfolding discover
  discover-IsVetted now has_context issuer client_id client = (
    ground (arith, IsPinned-from now issuer client_id client),
    λ c e. vetted now issuer client_id client c (ground arith) (ground arith),
  )
