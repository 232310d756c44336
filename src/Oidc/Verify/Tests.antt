-- ===== src/Oidc/Verify/Tests.antt =====
-- auth/oidc/verify_test.go: a token that is accepted and some that are not. Signatures are checked
-- by comparing numbers here: a key is a number, and one of them signed the token.
use stumpfworks_framework.Base.{
  ℕ, ◌+◌, ◌*◌, ◌≡◌, ◌==◌, Bool, true, false, List, [], ◌∷◌, Option, none, some, Bytes,
  Bytes-discrete, codes, refl, lookup, ok, err, if◌then◌else◌, insert,
}
use stumpfworks_framework.Oidc.Transactions.{second, minute}
use stumpfworks_framework.Oidc.Verify.{
  Header, Claims, Jose, Jwk, Verifier, Identity, rs256, epoch_seconds, new_verifier,
  verify_id_token, invalid_token, add_keys, extra_ok, header_ok, sizes_ok, subject_ok, party_ok,
  times_ok, not_before_ok, check_claims, verify_signature, verify_header, verify_parsed,
}
use stumpfworks_framework.Oidc.Verify.Tokens.{IsVerified, verify_id_token_iff}

abbrev pub issuer : Bytes
issuer = codes "https://id.example"

abbrev pub client_id : Bytes
client_id = codes "access"

abbrev pub header : Header
header = record {
  algorithm = rs256;
  key_id = codes "k1";
  has_key = false;
  extra = (codes "typ", some (codes "JWT")) ∷ [];
}

abbrev pub claim_set : Claims
claim_set = record {
  issuer = issuer;
  subject = codes "alice";
  audience = client_id ∷ [];
  expiry = some (epoch_seconds + 1300);
  issued_at = some (epoch_seconds + 1000);
  not_before = none;
  nonce = codes "n";
  authorized_party = [];
}

abbrev pub now : ℕ
now = (epoch_seconds + 1100) * second

abbrev pub checked_by : ℕ → Option Claims
checked_by k = if k == 7 then some claim_set else none

abbrev pub jose : Jose
jose = record {
  Parsed = Unit {0};
  Key = ℕ;
  parse_signed = λ raw. some tt;
  headers = λ parsed. header ∷ [];
  claims = λ parsed key. checked_by key;
}

abbrev pub verifier : Verifier ℕ
verifier = record { issuer = issuer; client_id = client_id; keys = (codes "k1", 7) ∷ [] }

abbrev pub alice : Identity
alice = record { issuer = issuer; subject = codes "alice" }

abbrev pub jwk : Jwk ℕ
jwk = record {
  public = some 7;
  is_valid = true;
  is_public = true;
  bit_len = 2048;
  key_id = codes "k1";
  algorithm = rs256;
  usage = codes "sig";
  has_certificates_url = false;
}

abbrev pub any_issuer : Bytes → Bool
any_issuer text = true

abbrev pub as_is : Bytes → Bytes
as_is text = text

abbrev pub one_key : Bytes → Option (List (Jwk ℕ))
one_key jwks = some (jwk ∷ [])

unfoldable pub verified : Unit {0}
unfolding verify_id_token verify_parsed verify_header verify_signature check_claims sizes_ok
    subject_ok party_ok times_ok not_before_ok header_ok extra_ok new_verifier add_keys lookup
    insert Bytes-discrete
verified = tt

accepts : verify_id_token jose (some verifier) now (codes "t") (codes "n") ≡ ok alice
unfolding verified
accepts = refl

refuses_late :
    verify_id_token jose (some verifier) (now + 10 * minute) (codes "t") (codes "n")
    ≡ err invalid_token
unfolding verified
refuses_late = refl

refuses_nonce : verify_id_token jose (some verifier) now (codes "t") (codes "m") ≡ err invalid_token
unfolding verified
refuses_nonce = refl

builds : new_verifier any_issuer as_is one_key issuer client_id (codes "{}") ≡ ok verifier
unfolding verified
builds = refl

holds_one : lookup Bytes-discrete (codes "k1") verifier.keys ≡ some 7
unfolding verified
holds_one = refl

verify_id_token_iff_example :
    (verify_id_token jose (some verifier) now (codes "t") (codes "n") ≡ ok alice)
    × ((v : Verifier ℕ) × (some verifier ≡ some v)
        × IsVerified jose v now (codes "t") (codes "n") alice)
verify_id_token_iff_example = (
  accepts,
  (verify_id_token_iff jose (some verifier) now (codes "t") (codes "n") alice).0 accepts,
)
