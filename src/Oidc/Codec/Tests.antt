-- ===== src/Oidc/Codec/Tests.antt =====
-- auth/oidc/transaction_codec_test.go: a login that is sealed and opened again. The cipher here only
-- appends a tag of zeros.
use stumpfworks_framework.Base.{
  false, ℕ, zero, suc, ◌+◌, ◌-◌, ◌*◌, ◌≡◌, refl, ap, [], ◌∷◌, ◌++◌, Option, some, Bytes,
  Bytes-discrete, length, take, arith, length-append, take-append, ok, codes,
}
use stumpfworks_framework.Oidc.Base64.{decode_binding, encode, decode}
use stumpfworks_framework.Oidc.Transactions.{Transaction, second, minute}
use stumpfworks_framework.Oidc.Codec.{
  Client, epoch, seal, open_sealed, valid_transaction_time, valid_transaction_fields, plaintext_of,
  aad_input, format_version,
}
use stumpfworks_framework.Oidc.Codec.RoundTrip.{open_sealed-seal}

abbrev bytes_of : ℕ → ℕ → Bytes
bytes_of zero b = []
bytes_of (suc n) b = b ∷ bytes_of n b

abbrev start : ℕ
start = epoch + 1000 * minute

abbrev login : Transaction
login = record {
  owner = some 0;
  state = encode (bytes_of 32 1);
  nonce = encode (bytes_of 32 2);
  verifier = encode (bytes_of 32 3);
  created_at = start;
  used = false;
}

abbrev client : Client
client = record {
  issuer = codes "https://id.example";
  client_id = codes "access";
  redirect_uri = codes "https://a.example/cb";
}

abbrev clients : ℕ → Client
clients a = client

abbrev tagging_seal : Bytes → Bytes → Bytes → Bytes
tagging_seal nonce text aad = text ++ bytes_of 16 0

abbrev tagging_open : Bytes → Bytes → Bytes → Option Bytes
tagging_open nonce sealed aad = some (take (length sealed - 16) sealed)

abbrev sha256 : Bytes → Bytes
sha256 b = b

tagging_opens :
    (nonce text aad : Bytes) → tagging_open nonce (tagging_seal nonce text aad) aad ≡ some text
tagging_opens nonce text aad = ap some (
    take-append (length (text ++ bytes_of 16 0) - 16) text (bytes_of 16 0)
      (omega (arith, length-append text (bytes_of 16 0))))

tagging_tagged : (nonce text aad : Bytes) → length (tagging_seal nonce text aad) ≡ length text + 16
tagging_tagged nonce text aad = omega (arith, length-append text (bytes_of 16 0))

abbrev sealed_login : Bytes
sealed_login =
    format_version
    ∷ (bytes_of 12 9 ++ tagging_seal (bytes_of 12 9) (plaintext_of login) (aad_input client))

sealed :
    seal tagging_seal tagging_open sha256 clients (start + second) (some (bytes_of 12 9)) login
    ≡ ok sealed_login
unfolding seal valid_transaction_fields valid_transaction_time decode_binding decode encode
    Bytes-discrete
sealed = refl

open_sealed-seal_example :
    open_sealed tagging_seal tagging_open sha256 clients (start + minute) 0 sealed_login ≡ ok login
unfolding valid_transaction_time
open_sealed-seal_example =
    open_sealed-seal tagging_seal tagging_open sha256 clients tagging_opens tagging_tagged
      (start + second) (start + minute) 0 (bytes_of 12 9) login sealed_login refl refl (omega arith)
      sealed refl
