-- ===== src/Oidc/Verify/Keys.antt =====
-- auth/oidc/verify.go: the keys that a verifier of `NewVerifier` holds.
use stumpfworks_framework.Base.{
  ◌≤◌, ◌≡◌, ◌≢◌, ◌⊎◌, inl, inr, Bool, true, false, not, ◌>>◌, List, [], ◌∷◌, Option, some, Bytes,
  Bytes-discrete, length, codes, arith, lookup, lookup-insert, insert, ok, reject_if,
  reject_if-then, or_fail-then, Bool-cases, Option-cases, Result-cases, refl, sym,
}
use stumpfworks_framework.Oidc.Transactions.{is_nil}
use stumpfworks_framework.Oidc.Verify.{
  Jwk, Verifier, unsupported_key, duplicate_key, rs256, is_unsupported, add_keys, new_verifier,
  max_keys,
}

-- A public RSA signing key of 2048 bits at least, for RS256 only, under the name `id`.
pub record IsSigningKey {Key : Type 0} (j : Jwk Key) (id : Bytes) (key : Key) : Type 0 where
  pub rsa : j.public ≡ some key
  pub name : j.key_id ≡ id
  pub named : id ≢ []
  pub short : length id ≤ 128
  pub valid : j.is_valid ≡ true
  pub public_half : j.is_public ≡ true
  pub strong : 2048 ≤ j.bit_len
  pub algorithm : j.algorithm ≡ rs256
  pub signs : j.usage ≡ codes "sig"
  pub no_url : j.has_certificates_url ≡ false

abbrev pub Offers : {Key : Type 0} → List (Jwk Key) → Bytes → Key → Type 0
Offers [] id key = ⊥
Offers (j ∷ more) id key = IsSigningKey j id key ⊎ Offers more id key

supported :
    {Key : Type 0} (j : Jwk Key) (key : Key)
    → j.public ≡ some key
    → is_unsupported j ≡ false
    → IsSigningKey j j.key_id key
supported j key e h = record {
  rsa = e;
  name = refl;
  named = ground arith;
  short = ground arith;
  valid = ground arith;
  public_half = ground arith;
  strong = ground arith;
  algorithm = ground arith;
  signs = ground arith;
  no_url = ground arith;
}

rename :
    {Key : Type 0} {j : Jwk Key} {id name : Bytes} {key public : Key}
    → IsSigningKey j name public
    → name ≡ id
    → public ≡ key
    → IsSigningKey j id key
rename h same it = rw (sym same, sym it) h

lookup-insert-cases :
    {Key : Type 0} (id name : Bytes) (public key : Key) (keys : List (Bytes × Key))
    → lookup Bytes-discrete id (insert Bytes-discrete name public keys) ≡ some key
    → ((name ≡ id) × (public ≡ key)) ⊎ (lookup Bytes-discrete id keys ≡ some key)
lookup-insert-cases id name public key keys h =
    let law = lookup-insert Bytes-discrete id name public keys in ground arith

-- Each key in the table was there before or is one of the set.
add_keys-Offers :
    {Key : Type 0} (keys result : List (Bytes × Key)) (set : List (Jwk Key)) (id : Bytes)
    (key : Key)
    → add_keys keys set ≡ ok result
    → lookup Bytes-discrete id result ≡ some key
    → (lookup Bytes-discrete id keys ≡ some key) ⊎ Offers set id key
unfolding add_keys
add_keys-Offers keys result [] id key e h = inl (cc)
add_keys-Offers keys result (j ∷ more) id key e h =
    let (public, rsa, e1) =
      or_fail-then j.public unsupported_key
        (λ public.
          reject_if (is_unsupported j) unsupported_key
          >> (reject_if (not (is_nil (lookup Bytes-discrete j.key_id keys))) duplicate_key
              >> add_keys (insert Bytes-discrete j.key_id public keys) more))
        e in
    let (good, e2) =
      reject_if-then (is_unsupported j) unsupported_key
        (reject_if (not (is_nil (lookup Bytes-discrete j.key_id keys))) duplicate_key
          >> add_keys (insert Bytes-discrete j.key_id public keys) more)
        e1 in
    let (fresh, e3) =
      reject_if-then (not (is_nil (lookup Bytes-discrete j.key_id keys))) duplicate_key
        (add_keys (insert Bytes-discrete j.key_id public keys) more) e2 in
    elim (add_keys-Offers (insert Bytes-discrete j.key_id public keys) result more id key e3 h) [
      | inr later ↦ inr (inr later)
      | inl found ↦ elim (lookup-insert-cases id j.key_id public key keys found) [
        | inl (same, it) ↦ inr (inl (rename (supported j public rsa good) same it))
        | inr before ↦ inl before
      ]
    ]

-- `NewVerifier` returns a verifier only for a valid issuer and a client name of 1 to 256 bytes, and
-- each key it holds is one that the decoded set offers under that name: a public RSA signing key for
-- RS256 of at least 2048 bits.
new_verifier-Offers :
    {Key : Type 0} (valid_issuer : Bytes → Bool) (trimmed : Bytes → Bytes)
    (decode_set : Bytes → Option (List (Jwk Key))) (issuer client_id jwks : Bytes)
    (v : Verifier Key)
    → new_verifier valid_issuer trimmed decode_set issuer client_id jwks ≡ ok v
    → (set : List (Jwk Key)) × (decode_set jwks ≡ some set)
      × (v.issuer ≡ issuer)
      × (v.client_id ≡ client_id)
      × (valid_issuer issuer ≡ true)
      × (client_id ≢ [])
      × (length client_id ≤ 256)
      × (length set ≤ max_keys)
      × ((id : Bytes) (key : Key) → lookup Bytes-discrete id v.keys ≡ some key → Offers set id key)
unfolding new_verifier lookup
new_verifier-Offers valid_issuer trimmed decode_set issuer client_id jwks v e =
    elim (Bool-cases (valid_issuer issuer)) [
      | inr bad ↦ absurd (ground arith)
      | inl good ↦ elim (Option-cases (decode_set jwks)) [
        | inl unreadable ↦ absurd (ground arith)
        | inr (set, decoded) ↦ elim (Result-cases (add_keys [] set)) [
          | inr (error, bad) ↦ absurd (ground arith)
          | inl (keys, added) ↦
              let same : v.keys ≡ keys = ground arith in
              (
                set,
                decoded,
                ground arith,
                ground arith,
                good,
                ground arith,
                ground arith,
                ground arith,
                λ id key h. elim (add_keys-Offers [] keys set id key added (rw (sym same) h)) [
                  | inl none_before ↦ absurd (ground arith)
                  | inr offered ↦ offered
                ],
              )
        ]
      ]
    ]
