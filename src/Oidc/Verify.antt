-- ===== src/Oidc/Verify.antt =====
-- auth/oidc/verify.go: ID tokens of the pinned issuer. The JOSE library and the decoder of key sets
-- are parameters. A date of a claim is in seconds since Go's zero time; one before that counts as 0,
-- which no test here tells from the true one.
pub mod Keys
pub mod Tokens
pub mod Tests
use stumpfworks_framework.Base.{
  ℕ, suc, ◌+◌, ◌-◌, ◌*◌, ◌^◌, Bool, true, false, not, ◌&&◌, ◌||◌, List, [], ◌∷◌, Option, none, some,
  Bytes, Bytes-discrete, length, any, ltb, leb, ◌==◌, eqb, is_empty, codes, if◌then◌else◌, lookup,
  insert, Result, ok, err, ◌>>=◌, ◌>>◌, or_fail, reject_if,
}
use stumpfworks_framework.Oidc.Transactions.{second, minute, clock_skew, is_nil}

abbrev pub max_jwks_bytes : ℕ
max_jwks_bytes = 64 * 2 ^ 10

abbrev pub max_token_bytes : ℕ
max_token_bytes = 16 * 2 ^ 10

abbrev pub max_keys : ℕ
max_keys = 16

abbrev pub max_lifetime : ℕ
max_lifetime = 10 * minute

-- 1 January 1970 in seconds since Go's zero time.
abbrev pub epoch_seconds : ℕ
epoch_seconds = 62135596800

pub data Error : Type 0 where
  bad_issuer bad_client bad_jwks_size bad_jwks unsupported_key duplicate_key invalid_token : Error

pub record Identity : Type 0 where
  pub issuer : Bytes
  pub subject : Bytes

-- A header of a parsed token; an extra value that is no string is `none`.
pub record Header : Type 0 where
  pub algorithm : Bytes
  pub key_id : Bytes
  pub has_key : Bool
  pub extra : List (Bytes × Option Bytes)

-- `idClaims`
pub record Claims : Type 0 where
  pub issuer : Bytes
  pub subject : Bytes
  pub audience : List Bytes
  pub expiry : Option ℕ
  pub issued_at : Option ℕ
  pub not_before : Option ℕ
  pub nonce : Bytes
  pub authorized_party : Bytes

-- What go-jose does here: `jwt.ParseSigned` for RS256, the headers, and `Claims`, which verifies the
-- signature by a key.
pub record Jose : Type 1 where
  pub Parsed : Type 0
  pub Key : Type 0
  pub parse_signed : Bytes → Option Parsed
  pub headers : Parsed → List Header
  pub claims : Parsed → Key → Option Claims

-- A key of a decoded set: `public` is the RSA key, if it is one.
pub record Jwk (Key : Type 0) : Type 0 where
  pub public : Option Key
  pub is_valid : Bool
  pub is_public : Bool
  pub bit_len : ℕ
  pub key_id : Bytes
  pub algorithm : Bytes
  pub usage : Bytes
  pub has_certificates_url : Bool

pub record Verifier (Key : Type 0) : Type 0 where
  pub issuer : Bytes
  pub client_id : Bytes
  pub keys : List (Bytes × Key)

abbrev pub rs256 : Bytes
rs256 = codes "RS256"

abbrev pub is_unsupported : {Key : Type 0} → Jwk Key → Bool
is_unsupported k =
    not k.is_valid
    || not k.is_public
    || ltb k.bit_len 2048
    || is_empty k.key_id
    || ltb 128 (length k.key_id)
    || not (eqb k.algorithm rs256)
    || not (eqb k.usage (codes "sig"))
    || k.has_certificates_url

-- The loop of `NewVerifier` over the keys of the set.
pub add_keys :
    {Key : Type 0} → List (Bytes × Key) → List (Jwk Key) → Result Error (List (Bytes × Key))
add_keys keys [] = ok keys
add_keys keys (k ∷ more) = do
  public ← or_fail k.public unsupported_key
  reject_if (is_unsupported k) unsupported_key
  reject_if (not (is_nil (lookup Bytes-discrete k.key_id keys))) duplicate_key
  add_keys (insert Bytes-discrete k.key_id public keys) more

-- `trimmed` is `strings.TrimSpace`.
unfoldable pub new_verifier :
    {Key : Type 0}
    → (valid_issuer : Bytes → Bool) (trimmed : Bytes → Bytes)
      (decode_set : Bytes → Option (List (Jwk Key)))
    → Bytes
    → Bytes
    → Bytes
    → Result Error (Verifier Key)
unfolding add_keys
new_verifier valid_issuer trimmed decode_set issuer client_id jwks = do
  reject_if (not (valid_issuer issuer)) bad_issuer
  reject_if
      (is_empty client_id || ltb 256 (length client_id) || not (eqb (trimmed client_id) client_id))
      bad_client
  reject_if (length jwks == 0 || ltb max_jwks_bytes (length jwks)) bad_jwks_size
  set ← or_fail (decode_set jwks) bad_jwks
  reject_if (length set == 0 || ltb max_keys (length set)) bad_jwks
  keys ← add_keys [] set
  ok (record { issuer = issuer; client_id = client_id; keys = keys })

abbrev is_typ_jwt : Bytes × Option Bytes → Bool
is_typ_jwt (name, none) = false
is_typ_jwt (name, some value) = eqb name (codes "typ") && eqb value (codes "JWT")

-- The loop over the extra headers.
pub extra_ok : List (Bytes × Option Bytes) → Bool
extra_ok [] = true
extra_ok (e ∷ more) = let rest = extra_ok more in if not (is_typ_jwt e) then false else rest

pub header_ok : Header → Bool
header_ok h = eqb h.algorithm rs256 && not (is_empty h.key_id) && not h.has_key && extra_ok h.extra

-- The one header, or nothing.
abbrev pub only : {A : Type 0} → List A → Option A
only [] = none
only (a ∷ []) = some a
only (a ∷ b ∷ more) = none

pub subject_ok : Bytes → Bytes → Bytes → Claims → Bool
subject_ok issuer client_id nonce c =
    eqb c.issuer issuer
    && not (is_empty c.subject)
    && leb (length c.subject) 256
    && any (λ a. eqb a client_id) c.audience
    && eqb c.nonce nonce

pub party_ok : Bytes → Claims → Bool
party_ok client_id c =
    (length c.audience == 1 || eqb c.authorized_party client_id)
    && (is_empty c.authorized_party || eqb c.authorized_party client_id)

-- `issued_at` and `expiry` in seconds, `now` in nanoseconds.
pub times_ok : ℕ → ℕ → ℕ → Bool
times_ok now issued_at expiry =
    ltb epoch_seconds issued_at
    && ltb now (expiry * second)
    && ltb issued_at expiry
    && leb (expiry * second - issued_at * second) max_lifetime
    && leb (issued_at * second) (now + clock_skew)

pub not_before_ok : ℕ → Option ℕ → Bool
not_before_ok now none = true
not_before_ok now (some date) = leb (date * second) (now + clock_skew)

pub sizes_ok : Bytes → Bytes → Bool
sizes_ok raw nonce =
    not
      (is_empty nonce || ltb 256 (length nonce) || is_empty raw || ltb max_token_bytes (length raw))

module _ (jose : Jose) where
  open jose use {Parsed, Key, parse_signed, headers, claims}

  -- The checks of a verified claim set.
  pub check_claims : Verifier Key → ℕ → Bytes → Claims → Result Error Identity
  check_claims v now nonce c = do
    reject_if (not (subject_ok v.issuer v.client_id nonce c)) invalid_token
    expiry ← or_fail c.expiry invalid_token
    issued_at ← or_fail c.issued_at invalid_token
    reject_if (not (party_ok v.client_id c)) invalid_token
    reject_if (not (times_ok now issued_at expiry)) invalid_token
    reject_if (not (not_before_ok now c.not_before)) invalid_token
    ok (record { issuer = c.issuer; subject = c.subject })

  -- From the key that the header names on.
  pub verify_signature : Verifier Key → ℕ → Bytes → Parsed → Key → Result Error Identity
  verify_signature v now nonce parsed key = do
    c ← or_fail (claims parsed key) invalid_token
    check_claims v now nonce c

  -- The header's own checks, and on.
  pub verify_header : Verifier Key → ℕ → Bytes → Parsed → Header → Result Error Identity
  verify_header v now nonce parsed header = do
    reject_if (not (header_ok header)) invalid_token
    key ← or_fail (lookup Bytes-discrete header.key_id v.keys) invalid_token
    verify_signature v now nonce parsed key

  pub verify_parsed : Verifier Key → ℕ → Bytes → Parsed → Result Error Identity
  verify_parsed v now nonce parsed = do
    header ← or_fail (only (headers parsed)) invalid_token
    verify_header v now nonce parsed header

  -- `VerifyIDToken`, on a verifier that may be nil.
  unfoldable pub verify_id_token : Option (Verifier Key) → ℕ → Bytes → Bytes → Result Error Identity
  verify_id_token none now raw nonce = err invalid_token
  verify_id_token (some v) now raw nonce = do
    reject_if (not (sizes_ok raw nonce)) invalid_token
    parsed ← or_fail (parse_signed raw) invalid_token
    verify_parsed v now nonce parsed
