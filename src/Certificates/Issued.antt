-- ===== src/Certificates/Issued.antt =====
-- security/certificates/verify.go: what an accepted certificate has passed.
use stumpfworks_framework.Base.{
  ℕ, ◌≤◌, ◌<◌, ◌≡◌, ◌⊎◌, inl, inr, refl, ap, true, List, [], ◌∷◌, Option, none, some, Bytes, any,
  eqb, arith, ok, Option-cases, Result-cases, Bool-cases, ℤ, pos, positive_cases,
}
use stumpfworks_framework.Certificates.{
  Usage, client_auth, server_auth, another, same_usage, Certificate, Metadata, PeerOptions,
  IssuedOptions, X509, valid_options, has_positive_serial, root_of, canonical, valid_leaf, metadata,
  ends_in, check_pin, verify_leaf, verify_issued,
}

abbrev pub Lists : Usage → List Usage → Type 0
Lists u [] = ⊥
Lists u (v ∷ more) = (v ≡ u) ⊎ Lists u more

usage_of_same : (u v : Usage) → same_usage u v ≡ true → u ≡ v
usage_of_same client_auth client_auth h = refl
usage_of_same client_auth server_auth h = cc
usage_of_same client_auth (another n) h = cc
usage_of_same server_auth server_auth h = refl
usage_of_same server_auth client_auth h = cc
usage_of_same server_auth (another n) h = cc
usage_of_same (another m) (another n) h = ground arith
usage_of_same (another m) client_auth h = cc
usage_of_same (another m) server_auth h = cc

listed : (u : Usage) (l : List Usage) → any (λ v. same_usage v u) l ≡ true → Lists u l
listed u [] h = cc
listed u (v ∷ more) h = elim (Bool-cases (same_usage v u)) [
  | inl same ↦ inl (usage_of_same v u same)
  | inr other ↦ inr (listed u more (ground arith))
]

positive_serial :
    (s : Option ℤ) → has_positive_serial s ≡ true → (n : ℕ) × (s ≡ some (pos n)) × (0 < n)
positive_serial none h = cc
positive_serial (some z) h = let (n, is, positive) = positive_cases z h in (n, ap some is, positive)

module _ (x509 : X509) where
  open x509 use {parse_certificate, parse_key, key_der, verify_hostname, verify, sha256}

  -- A certificate that may serve for these options, whatever its chain.
  pub record IsUsable (c : Certificate) (o : PeerOptions) : Type 0 where
    pub serial : ℕ
    pub has_serial : c.serial ≡ some (pos serial)
    pub positive : 0 < serial
    pub begun : c.not_before ≤ o.now
    pub not_ended : o.now ≤ c.not_after
    pub explicit : Lists o.usage c.usages
    pub hostname : (o.dns_name ≡ []) ⊎ (verify_hostname c o.dns_name ≡ true)

  usable : (c : Certificate) (o : PeerOptions) → valid_leaf x509 c o ≡ true → IsUsable c o
  unfolding valid_leaf
  usable c o h =
      let (n, is, positive) = positive_serial c.serial (ground arith) in
      record {
        serial = n;
        has_serial = is;
        positive = positive;
        begun = ground arith;
        not_ended = ground arith;
        explicit = listed o.usage c.usages (ground arith);
        hostname = ground arith;
      }

  -- A chain among these ends in a certificate with the hash of the pin's.
  abbrev pub Reaches : Bytes → List (List Bytes) → Type 0
  Reaches pin [] = ⊥
  Reaches pin (chain ∷ more) =
      ((root : Bytes) × (root_of chain ≡ some root) × (sha256 root ≡ sha256 pin)) ⊎ Reaches pin more

  reached :
      (pin : Bytes) (chains : List (List Bytes))
      → any (ends_in x509 pin) chains ≡ true
      → Reaches pin chains
  reached pin [] h = cc
  reached pin (chain ∷ more) h = elim (Option-cases (root_of chain)) [
    | inl nothing ↦ inr (reached pin more (ground arith))
    | inr (root, last) ↦ elim (Bool-cases (eqb (sha256 root) (sha256 pin))) [
      | inl same ↦ inl (root, last, ground arith)
      | inr other ↦ inr (reached pin more (ground arith))
    ]
  ]

  abbrev pub IsPinned : Option Bytes → List (List Bytes) → Type 0
  IsPinned none chains = Unit {0}
  IsPinned (some raw) chains =
      (pin : Certificate) × (canonical x509 (some raw) ≡ ok pin) × Reaches pin.raw chains

  pinned :
      (raw : Option Bytes) (chains : List (List Bytes))
      → check_pin x509 raw chains ≡ ok tt
      → IsPinned raw chains
  unfolding check_pin
  pinned none chains h = tt
  pinned (some raw) chains h = elim (Result-cases (canonical x509 (some raw))) [
    | inr (error, bad) ↦ absurd (ground arith)
    | inl (pin, parsed) ↦ (pin, parsed, reached pin.raw chains (ground arith))
  ]

  -- A certificate that the roots of the options vouch for.
  pub record IsIssued (certificate : Option Bytes) (o : IssuedOptions) (m : Metadata) : Type 0 where
    pub options : valid_options o.peer ≡ true
    pub roots : ℕ
    pub explicit_roots : o.roots ≡ some roots
    pub leaf : Certificate
    pub parsed : canonical x509 certificate ≡ ok leaf
    pub usable : IsUsable leaf o.peer
    pub key : Bytes
    pub expected_key : parse_key o.expected_key ≡ some key
    pub der : Bytes
    pub expected : key_der key ≡ some der
    pub bound : key_der leaf.public_key ≡ some der
    pub chains : List (List Bytes)
    pub verified :
        verify leaf roots o.intermediates o.peer.now o.peer.usage o.peer.dns_name ≡ some chains
    pub pinned : IsPinned o.pinned_root chains
    pub described : metadata x509 leaf ≡ ok m

  leaf_lem :
      (certificate : Option Bytes) (o : IssuedOptions) (roots : ℕ) (expected : Bytes) (m : Metadata)
      → verify_leaf x509 certificate o roots expected ≡ ok m
      → (leaf : Certificate) × (canonical x509 certificate ≡ ok leaf)
        × (valid_leaf x509 leaf o.peer ≡ true)
        × (key_der leaf.public_key ≡ some expected)
        × ((chains : List (List Bytes)) × (verify leaf roots o.intermediates o.peer.now o.peer.usage
                o.peer.dns_name
              ≡ some chains)
            × (check_pin x509 o.pinned_root chains ≡ ok tt))
        × (metadata x509 leaf ≡ ok m)
  unfolding verify_leaf
  leaf_lem certificate o roots expected m e = elim (Result-cases (canonical x509 certificate)) [
    | inr (error, bad) ↦ absurd (ground arith)
    | inl (leaf, parsed) ↦
        elim (Option-cases
          (verify leaf roots o.intermediates o.peer.now o.peer.usage o.peer.dns_name)) [
            | inl rejected ↦ absurd (ground arith)
            | inr (chains, verified) ↦ (
              leaf,
              parsed,
              ground arith,
              ground arith,
              (chains, verified, ground arith),
              ground arith,
            )
          ]
  ]

  -- `VerifyIssued` describes a certificate only if it parses, is within its dates, names the wanted key
  -- usage, fits the host name where one is wanted, holds the expected public key, and is verified
  -- against explicit roots; where a root is pinned, one of the verified chains ends in it.
  pub verify_issued-IsIssued :
      (certificate : Option Bytes) (o : IssuedOptions) (m : Metadata)
      → verify_issued x509 certificate o ≡ ok m
      → IsIssued certificate o m
  unfolding verify_issued
  verify_issued-IsIssued certificate o m e = elim (Option-cases o.roots) [
    | inl missing ↦ absurd (ground arith)
    | inr (roots, explicit) ↦ elim (Option-cases (parse_key o.expected_key)) [
      | inl bad ↦ absurd (ground arith)
      | inr (key, read) ↦ elim (Option-cases (key_der key)) [
        | inl bad ↦ absurd (ground arith)
        | inr (der, canonical_der) ↦
            let done : verify_leaf x509 certificate o roots der ≡ ok m = ground arith in
            let (leaf, parsed, valid, bound, (chains, verified, pin), described) =
              leaf_lem certificate o roots der m done in
            record {
              options = ground arith;
              roots = roots;
              explicit_roots = explicit;
              leaf = leaf;
              parsed = parsed;
              usable = usable leaf o.peer valid;
              key = key;
              expected_key = read;
              der = der;
              expected = canonical_der;
              bound = bound;
              chains = chains;
              verified = verified;
              pinned = pinned o.pinned_root chains pin;
              described = described;
            }
      ]
    ]
  ]
