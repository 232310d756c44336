-- ===== src/Oidc/Urls/Origins.antt =====
-- auth/oidc: what `validIssuer` and `sameOriginEndpoint` say of the parts of a URL.
use stumpfworks_framework.Base.{
  ◌≡◌, ◌≢◌, inl, inr, true, false, [], Option, some, Bytes, codes, arith, Option-cases,
}
use stumpfworks_framework.Oidc.Urls.{Url, is_plain_https, valid_issuer, same_origin_endpoint}

-- HTTPS, without a user, a query, a fragment or an opaque part.
pub record IsPlainHttps (u : Url) : Type 0 where
  pub https : u.scheme ≡ codes "https"
  pub no_user : u.has_user ≡ false
  pub no_query : u.raw_query ≡ []
  pub no_question_mark : u.force_query ≡ false
  pub no_fragment : u.fragment ≡ []
  pub not_opaque : u.opaque ≡ []

is_plain_https-IsPlainHttps : (u : Url) → is_plain_https u ≡ true → IsPlainHttps u
is_plain_https-IsPlainHttps u e = record {
  https = ground arith;
  no_user = ground arith;
  no_query = ground arith;
  no_question_mark = ground arith;
  no_fragment = ground arith;
  not_opaque = ground arith;
}

module _ (parse_url : Bytes → Option Url) where
  -- An issuer: a host and no path, written the way its URL prints.
  pub record IsIssuer (issuer : Bytes) : Type 0 where
    pub url : Url
    pub parsed : parse_url issuer ≡ some url
    pub plain : IsPlainHttps url
    pub some_host : url.host ≢ []
    pub no_path : url.path ≡ []
    pub canonical : url.text ≡ issuer

  -- An endpoint: a path on the host, with its port, of the issuer.
  pub record IsOnOrigin (issuer endpoint : Bytes) : Type 0 where
    pub base : Url
    pub url : Url
    pub base_parsed : parse_url issuer ≡ some base
    pub parsed : parse_url endpoint ≡ some url
    pub plain : IsPlainHttps url
    pub same_host : url.host ≡ base.host
    pub some_path : url.path ≢ []

  pub valid_issuer-IsIssuer :
      (issuer : Bytes) → valid_issuer parse_url issuer ≡ true → IsIssuer issuer
  unfolding valid_issuer
  valid_issuer-IsIssuer issuer e = elim (Option-cases (parse_url issuer)) [
    | inl bad ↦ absurd (ground arith)
    | inr (u, parsed) ↦ record {
      url = u;
      parsed = parsed;
      plain = is_plain_https-IsPlainHttps u (ground arith);
      some_host = ground arith;
      no_path = ground arith;
      canonical = ground arith;
    }
  ]

  pub same_origin_endpoint-IsOnOrigin :
      (issuer endpoint : Bytes)
      → same_origin_endpoint parse_url issuer endpoint ≡ true
      → IsOnOrigin issuer endpoint
  unfolding same_origin_endpoint
  same_origin_endpoint-IsOnOrigin issuer endpoint e = elim (Option-cases (parse_url issuer)) [
    | inl bad ↦ absurd (ground arith)
    | inr (base, base_parsed) ↦ elim (Option-cases (parse_url endpoint)) [
      | inl bad ↦ absurd (ground arith)
      | inr (u, parsed) ↦ record {
        base = base;
        url = u;
        base_parsed = base_parsed;
        parsed = parsed;
        plain = is_plain_https-IsPlainHttps u (ground arith);
        same_host = ground arith;
        some_path = ground arith;
      }
    ]
  ]
