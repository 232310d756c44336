-- ===== src/Certificates.antt =====
-- security/certificates/verify.go: checks of peer and issued certificates around crypto/x509, which is
-- a parameter, as SHA-256 and the texts of numbers, URIs and addresses are. An instant counts
-- nanoseconds since Go's zero time, which is 0.
pub mod Issued
pub mod Tests
use stumpfworks_framework.Base.{
  ℕ, ◌+◌, ◌^◌, Bool, true, false, not, ◌&&◌, ◌||◌, List, [], ◌∷◌, map, Option, none, some, Bytes,
  any, all, length, eqb, ltb, ◌==◌, is_empty, if◌then◌else◌, Result, ok, err, ◌>>=◌, ◌>>◌, or_fail,
  reject_if, ℤ, is_positive,
}

abbrev pub max_certificate_bytes : ℕ
max_certificate_bytes = 2 ^ 20

abbrev pub max_identities : ℕ
max_identities = 128

pub data Error : Type 0 where
  invalid_input unverified_peer certificate_rejected key_mismatch pin_mismatch : Error

-- An extended key usage: the two that are accepted, and the others by number.
pub data Usage : Type 0 where
  client_auth server_auth : Usage
  another : ℕ → Usage

abbrev pub same_usage : Usage → Usage → Bool
same_usage client_auth client_auth = true
same_usage server_auth server_auth = true
same_usage (another m) (another n) = m == n
same_usage client_auth server_auth = false
same_usage client_auth (another n) = false
same_usage server_auth client_auth = false
same_usage server_auth (another n) = false
same_usage (another m) client_auth = false
same_usage (another m) server_auth = false

-- The fields of a parsed certificate that the code reads. A serial number or URI may be nil.
pub record Certificate : Type 0 where
  pub raw : Bytes
  pub serial : Option ℤ
  pub not_before : ℕ
  pub not_after : ℕ
  pub usages : List Usage
  pub public_key : Bytes
  pub uris : List (Option Bytes)
  pub dns_names : List Bytes
  pub email_addresses : List Bytes
  pub ip_addresses : List Bytes

pub record Metadata : Type 0 where
  pub fingerprint : Bytes
  pub serial : Bytes
  pub not_before : ℕ
  pub not_after : ℕ
  pub uris : List Bytes
  pub dns_names : List Bytes
  pub email_addresses : List Bytes
  pub ip_addresses : List Bytes

pub record PeerOptions : Type 0 where
  pub now : ℕ
  pub usage : Usage
  pub dns_name : Bytes

-- `roots` and `intermediates` name pools; `pinned_root` is the DER of the certificate, where there is
-- one.
pub record IssuedOptions : Type 0 where
  pub peer : PeerOptions
  pub roots : Option ℕ
  pub intermediates : Option ℕ
  pub expected_key : Bytes
  pub pinned_root : Option Bytes

-- crypto/x509: parsing a certificate and a public key, whose canonical DER `key_der` is, the host name
-- test, and `Verify`, which gives the chains as lists of DER. `hex` is the text of a serial number, and
-- `fingerprint_text` that of a hash.
pub record X509 : Type 0 where
  pub parse_certificate : Bytes → Option Certificate
  pub parse_key : Bytes → Option Bytes
  pub key_der : Bytes → Option Bytes
  pub verify_hostname : Certificate → Bytes → Bool
  pub verify : Certificate → ℕ → Option ℕ → ℕ → Usage → Bytes → Option (List (List Bytes))
  pub sha256 : Bytes → Bytes
  pub hex : ℤ → Bytes
  pub fingerprint_text : Bytes → Bytes

abbrev pub is_server : Usage → Bool
is_server server_auth = true
is_server client_auth = false
is_server (another n) = false

abbrev pub is_accepted : Usage → Bool
is_accepted client_auth = true
is_accepted server_auth = true
is_accepted (another n) = false

-- `validOptions`
pub valid_options : PeerOptions → Bool
valid_options o =
    not (o.now == 0)
    && is_accepted o.usage
    && (not (is_server o.usage) || not (is_empty o.dns_name))

abbrev pub has_positive_serial : Option ℤ → Bool
has_positive_serial none = false
has_positive_serial (some n) = is_positive n

-- The last certificate of a chain.
abbrev pub root_of : List Bytes → Option Bytes
root_of [] = none
root_of (c ∷ []) = some c
root_of (c ∷ d ∷ more) = root_of (d ∷ more)

-- The URIs, unless one is nil.
pub all_present : List (Option Bytes) → Option (List Bytes)
all_present [] = some []
all_present (none ∷ more) = none
all_present (some u ∷ more) = elim (all_present more) [ none ↦ none | some us ↦ some (u ∷ us) ]

-- What a TLS handshake leaves: the DER of the leaf that the peer sent, and of the one at the head of
-- the first verified chain; `none` for a list that is empty or begins with nil.
pub record ConnectionState : Type 0 where
  pub peer_leaf : Option Bytes
  pub chain_leaf : Option Bytes

abbrev pub serial_or_zero : (ℤ → Bytes) → Option ℤ → Bytes
serial_or_zero hex none = []
serial_or_zero hex (some n) = hex n

module _ (x509 : X509) where
  open x509 use {
    parse_certificate, parse_key, key_der, verify_hostname, verify, sha256, hex, fingerprint_text,
  }

  -- `canonical`, for the DER of a certificate, `none` for nil.
  pub canonical : Option Bytes → Result Error Certificate
  canonical none = err invalid_input
  canonical (some raw) =
      if length raw == 0 || ltb max_certificate_bytes (length raw)
      then err invalid_input
      else or_fail (parse_certificate raw) invalid_input

  -- `validLeaf`
  pub valid_leaf : Certificate → PeerOptions → Bool
  valid_leaf c o =
      has_positive_serial c.serial
      && not (ltb o.now c.not_before)
      && not (ltb c.not_after o.now)
      && any (λ u. same_usage u o.usage) c.usages
      && (is_empty o.dns_name || verify_hostname c o.dns_name)

  -- `metadata`; the serial is there, since `validLeaf` has seen it.
  pub metadata : Certificate → Result Error Metadata
  metadata c = do
    reject_if
        (ltb max_identities
          (length c.uris + length c.dns_names + length c.email_addresses + length c.ip_addresses))
        certificate_rejected
    uris ← or_fail (all_present c.uris) certificate_rejected
    ok (record {
      fingerprint = fingerprint_text (sha256 c.raw);
      serial = serial_or_zero hex c.serial;
      not_before = c.not_before;
      not_after = c.not_after;
      uris = uris;
      dns_names = c.dns_names;
      email_addresses = c.email_addresses;
      ip_addresses = c.ip_addresses;
    })

  -- `VerifiedPeer`; a nil state is one without certificates.
  unfoldable pub verified_peer : ConnectionState → PeerOptions → Result Error Metadata
  verified_peer state o = do
    reject_if (not (valid_options o)) invalid_input
    sent ← or_fail state.peer_leaf unverified_peer
    verified ← or_fail state.chain_leaf unverified_peer
    reject_if (not (eqb sent verified)) unverified_peer
    leaf ← canonical (some sent)
    reject_if (not (valid_leaf leaf o)) certificate_rejected
    metadata leaf

  abbrev pub ends_in : Bytes → List Bytes → Bool
  ends_in pin chain = elim (root_of chain) [
    | none ↦ false
    | some root ↦ eqb (sha256 root) (sha256 pin)
  ]

  -- The pin, if there is one.
  pub check_pin : Option Bytes → List (List Bytes) → Result Error (Unit {0})
  check_pin none chains = ok tt
  check_pin (some raw) chains = elim (canonical (some raw)) [
    | err e ↦ err invalid_input
    | ok pin ↦ reject_if (not (any (ends_in pin.raw) chains)) pin_mismatch
  ]

  -- From the expected key on.
  pub verify_leaf : Option Bytes → IssuedOptions → ℕ → Bytes → Result Error Metadata
  verify_leaf certificate o roots expected = do
    leaf ← canonical certificate
    reject_if (not (valid_leaf leaf o.peer)) certificate_rejected
    actual ← or_fail (key_der leaf.public_key) certificate_rejected
    reject_if (not (eqb actual expected)) key_mismatch
    chains ←
        or_fail (verify leaf roots o.intermediates o.peer.now o.peer.usage o.peer.dns_name)
          certificate_rejected
    _ ← check_pin o.pinned_root chains
    metadata leaf

  -- `VerifyIssued`
  unfoldable pub verify_issued : Option Bytes → IssuedOptions → Result Error Metadata
  verify_issued certificate o = do
    reject_if (not (valid_options o.peer)) invalid_input
    roots ← or_fail o.roots invalid_input
    reject_if (length o.expected_key == 0 || ltb max_certificate_bytes (length o.expected_key))
        invalid_input
    key ← or_fail (parse_key o.expected_key) invalid_input
    expected ← or_fail (key_der key) invalid_input
    verify_leaf certificate o roots expected
