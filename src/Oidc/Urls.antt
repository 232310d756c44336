-- ===== src/Oidc/Urls.antt =====
-- auth/oidc: the tests on URLs, `validIssuer` (verify.go) and `sameOriginEndpoint` (discovery.go).
-- `url.Parse` is a parameter; `text` is what `String` gives for the parsed URL.
pub mod Origins
use stumpfworks_framework.Base.{
  Bool, false, not, ◌&&◌, Option, none, some, Bytes, eqb, is_empty, codes,
}

pub record Url : Type 0 where
  pub scheme : Bytes
  pub host : Bytes
  pub has_user : Bool
  pub path : Bytes
  pub raw_query : Bytes
  pub force_query : Bool
  pub fragment : Bytes
  pub opaque : Bytes
  pub text : Bytes

-- What both tests, and the one of the redirect URI, ask of a URL besides its path and host.
abbrev pub is_plain_https : Url → Bool
is_plain_https u =
    eqb u.scheme (codes "https")
    && not u.has_user
    && is_empty u.raw_query
    && not u.force_query
    && is_empty u.fragment
    && is_empty u.opaque

module _ (parse_url : Bytes → Option Url) where
  unfoldable pub valid_issuer : Bytes → Bool
  valid_issuer issuer = elim (parse_url issuer) [
    | none ↦ false
    | some u ↦ is_plain_https u && not (is_empty u.host) && is_empty u.path && eqb u.text issuer
  ]

  -- Where `url.Parse(issuer)` fails the code reads a field of a nil URL and panics: `false` here. Each
  -- caller has tested the issuer before.
  unfoldable pub same_origin_endpoint : Bytes → Bytes → Bool
  same_origin_endpoint issuer endpoint = elim (parse_url issuer) [
    | none ↦ false
    | some base ↦ elim (parse_url endpoint) [
      | none ↦ false
      | some u ↦ is_plain_https u && eqb u.host base.host && not (is_empty u.path)
    ]
  ]
