-- ===== src/Oidc/Codec.antt =====
-- auth/oidc/transaction_codec.go: pending logins sealed for storage. The AES-GCM instance of the
-- codec's key, SHA-256 and the clock are parameters; a draw of random bytes that failed is `none`.
-- A codec or client that is nil or was not made by its constructor is left out.
pub mod RoundTrip
pub mod Binding
pub mod Tests
use stumpfworks_framework.Base.{
  ℕ, zero, suc, ◌+◌, ◌-◌, ◌*◌, ◌%◌, ◌^◌, Bool, true, false, not, ◌&&◌, ◌||◌, List, [], ◌∷◌, ◌++◌,
  Option, none, some, Bytes, length, take, drop, ltb, leb, ◌==◌, if◌then◌else◌, big_endian,
  to_big_endian, Result, ok, err, ◌>>=◌, ◌>>◌, or_fail, reject_if, is_empty,
}
use stumpfworks_framework.Oidc.Base64.{decode_binding}
use stumpfworks_framework.Oidc.Transactions.{Transaction, has_expired, is_future, is_nil}

abbrev pub format_version : ℕ
format_version = 1

abbrev pub plain_size : ℕ
plain_size = 3 * 43 + 8

abbrev pub nonce_size : ℕ
nonce_size = 12

abbrev pub sealed_size : ℕ
sealed_size = 1 + 12 + plain_size + 16

pub data Error : Type 0 where
  login_failed : Error

-- What the codec reads of a `LoginClient` and its configuration.
pub record Client : Type 0 where
  pub issuer : Bytes
  pub client_id : Bytes
  pub redirect_uri : Bytes

-- 1 January 1970 in nanoseconds since Go's zero time.
abbrev pub epoch : ℕ
epoch = 62135596800 * 10 ^ 9

-- `uint64(t.UnixNano())`: a signed number of 64 bits, read as an unsigned one.
abbrev pub unix_nano : ℕ → ℕ
unix_nano t = (t + 4 * 2 ^ 64 - epoch) % 2 ^ 64

-- `time.Unix(0, int64(u))`
abbrev pub from_unix_nano : ℕ → ℕ
from_unix_nano u = if ltb u (2 ^ 63) then epoch + u else epoch + u - 2 ^ 64

abbrev is_some {ℓ} : {A : Type ℓ} → Option A → Bool
is_some a = not (is_nil a)

unfoldable pub valid_transaction_fields : Transaction → Bool
valid_transaction_fields t =
    is_some (decode_binding t.state)
    && is_some (decode_binding t.nonce)
    && is_some (decode_binding t.verifier)

unfoldable pub valid_transaction_time : ℕ → Transaction → Bool
valid_transaction_time now t =
    not (t.created_at == 0) && not (is_future now t) && not (has_expired now t)

-- The bytes that `transactionAAD` writes into the hash.
pub aad_parts : List Bytes → Bytes
aad_parts [] = []
aad_parts (part ∷ parts) = to_big_endian 4 (length part % 2 ^ 32) ++ (part ++ aad_parts parts)

abbrev pub aad_input : Client → Bytes
aad_input c = aad_parts (c.issuer ∷ c.client_id ∷ c.redirect_uri ∷ [])

pub plaintext_of : Transaction → Bytes
plaintext_of t = t.state ++ (t.nonce ++ (t.verifier ++ to_big_endian 8 (unix_nano t.created_at)))

-- The fields that `Open` reads from a plaintext, for the client at address `a`.
pub restore : ℕ → Bytes → Transaction
restore a plaintext = record {
  owner = some a;
  state = take 43 plaintext;
  nonce = take 43 (drop 43 plaintext);
  verifier = take 43 (drop 86 plaintext);
  created_at = from_unix_nano (big_endian 0 (drop 129 plaintext));
  used = false;
}

-- The sealing and opening of `cipher.AEAD`, by nonce, text and additional data.
module _ (aead_seal : Bytes → Bytes → Bytes → Bytes)
    (aead_open : Bytes → Bytes → Bytes → Option Bytes) (sha256 : Bytes → Bytes)
    (clients : ℕ → Client) where
  abbrev pub transaction_aad : ℕ → Bytes
  transaction_aad a = sha256 (aad_input (clients a))

  unfoldable pub seal : ℕ → Option Bytes → Transaction → Result Error Bytes
  seal now drawn t = do
    reject_if (is_nil t.owner || t.used || not (valid_transaction_fields t)) login_failed
    client ← or_fail t.owner login_failed
    reject_if (not (valid_transaction_time now t)) login_failed
    nonce ← or_fail drawn login_failed
    ok (format_version ∷ (nonce ++ aead_seal nonce (plaintext_of t) (transaction_aad client)))

  abbrev has_version : Bytes → Bool
  has_version [] = false
  has_version (version ∷ more) = version == format_version

  unfoldable pub open_sealed : ℕ → ℕ → Bytes → Result Error Transaction
  open_sealed now client sealed = do
    reject_if (not (length sealed == sealed_size) || not (has_version sealed)) login_failed
    let nonce = take nonce_size (drop 1 sealed)
    let ciphertext = drop (1 + nonce_size) sealed
    plaintext ← or_fail (aead_open nonce ciphertext (transaction_aad client)) login_failed
    reject_if (not (length plaintext == plain_size)) login_failed
    let t = restore client plaintext
    reject_if (not (valid_transaction_fields t) || not (valid_transaction_time now t)) login_failed
    ok t

-- `NewTransactionCodec` accepts a key; the AES block and its GCM mode fail for no key of 32 bytes.
unfoldable pub new_codec : Bytes → Result Error Bytes
new_codec key = do reject_if (not (length key == 32)) login_failed; ok key
