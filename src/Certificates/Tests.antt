-- ===== src/Certificates/Tests.antt =====
-- security/certificates/verify_test.go: a server certificate under a pinned root. A certificate is two
-- bytes here, and the key in it is the second.
use stumpfworks_framework.Base.{
  ◌≡◌, refl, true, [], ◌∷◌, some, none, Bytes, Bytes-discrete, codes, ok, err, pos,
}
use stumpfworks_framework.Certificates.{
  server_auth, Certificate, Metadata, PeerOptions, IssuedOptions, X509, invalid_input, key_mismatch,
  pin_mismatch, valid_options, all_present, canonical, valid_leaf, metadata, verified_peer,
  check_pin, verify_leaf, verify_issued,
}
use stumpfworks_framework.Certificates.Issued.{IsIssued, verify_issued-IsIssued}

abbrev of : Bytes → Certificate
of raw = record {
  raw = raw;
  serial = some (pos 1);
  not_before = 10;
  not_after = 20;
  usages = server_auth ∷ [];
  public_key = codes "k";
  uris = [];
  dns_names = codes "db" ∷ [];
  email_addresses = [];
  ip_addresses = [];
}

abbrev root : Bytes
root = codes "root"

abbrev x509 : X509
x509 = record {
  parse_certificate = λ raw. some (of raw);
  parse_key = λ der. some der;
  key_der = λ key. some key;
  verify_hostname = λ c name. true;
  verify = λ c roots intermediates now usage name. some ((c.raw ∷ root ∷ []) ∷ []);
  sha256 = λ raw. raw;
  hex = λ n. codes "1";
  fingerprint_text = λ hash. hash;
}

abbrev peer : PeerOptions
peer = record { now = 15; usage = server_auth; dns_name = codes "db" }

abbrev options : IssuedOptions
options = record {
  peer = peer;
  roots = some 0;
  intermediates = none;
  expected_key = codes "k";
  pinned_root = some root;
}

abbrev leaf : Bytes
leaf = codes "leaf"

abbrev described : Metadata
described = record {
  fingerprint = leaf;
  serial = codes "1";
  not_before = 10;
  not_after = 20;
  uris = [];
  dns_names = codes "db" ∷ [];
  email_addresses = [];
  ip_addresses = [];
}

code : Unit {0}
unfolding verify_issued verify_leaf check_pin canonical valid_leaf metadata all_present
    valid_options Bytes-discrete verified_peer
code = tt

accepts : verify_issued x509 (some leaf) options ≡ ok described
unfolding code
accepts = refl

accepts_peer :
    verified_peer x509 (record { peer_leaf = some leaf; chain_leaf = some leaf }) peer
    ≡ ok described
unfolding code
accepts_peer = refl

needs_roots : verify_issued x509 (some leaf) (record options { roots = none }) ≡ err invalid_input
unfolding code
needs_roots = refl

other_key :
    verify_issued x509 (some leaf) (record options { expected_key = codes "j" }) ≡ err key_mismatch
unfolding code
other_key = refl

other_root :
    verify_issued x509 (some leaf) (record options { pinned_root = some leaf }) ≡ err pin_mismatch
unfolding code
other_root = refl

verify_issued-IsIssued_example : IsIssued x509 (some leaf) options described
verify_issued-IsIssued_example = verify_issued-IsIssued x509 (some leaf) options described accepts
