-- ===== src/Oidc/Verify/Tokens.antt =====
-- auth/oidc/verify.go: the tokens that `VerifyIDToken` accepts.
use stumpfworks_framework.Base.{
  ◌==◌, ℕ, ◌+◌, ◌*◌, ◌≤◌, ◌<◌, ◌≡◌, refl, ◌≢◌, ◌↔◌, ◌⊎◌, inl, inr, Bool, true, false, not, ◌&&◌,
  ◌||◌, List, [], ◌∷◌, Option, none, some, Bytes, Bytes-discrete, length, All, any, eqb, codes,
  arith, lookup, ok, Option-cases, is_empty, reject_if-then, or_fail-then, or_fail, ◌>>=◌,
}
use stumpfworks_framework.Oidc.Transactions.{second, clock_skew}
use stumpfworks_framework.Oidc.Verify.{
  invalid_token, Identity, Header, Claims, Jose, Verifier, rs256, max_token_bytes, max_lifetime,
  epoch_seconds, extra_ok, header_ok, only, subject_ok, party_ok, times_ok, not_before_ok,
  check_claims, sizes_ok, verify_signature, verify_header, verify_parsed, verify_id_token,
}

abbrev pub IsTypJwt : Bytes × Option Bytes → Type 0
IsTypJwt (name, value) = (name ≡ codes "typ") × (value ≡ some (codes "JWT"))

abbrev pub IsIn : Bytes → List Bytes → Type 0
IsIn a [] = ⊥
IsIn a (b ∷ bs) = (b ≡ a) ⊎ IsIn a bs

-- An RS256 header that names a key, embeds none, and adds at most `typ: JWT`.
pub record IsHeader (h : Header) : Type 0 where
  pub algorithm : h.algorithm ≡ rs256
  pub key_id : h.key_id ≢ []
  pub no_key : h.has_key ≡ false
  pub extra : All IsTypJwt h.extra

-- Claims of the pinned issuer, for this client and this login.
pub record IsAddressed {Key : Type 0} (v : Verifier Key) (nonce : Bytes) (c : Claims) : Type 0 where
  pub issuer : c.issuer ≡ v.issuer
  pub subject : c.subject ≢ []
  pub short : length c.subject ≤ 256
  pub audience : IsIn v.client_id c.audience
  pub same_login : c.nonce ≡ nonce
  pub sole : (length c.audience ≡ 1) ⊎ (c.authorized_party ≡ v.client_id)
  pub party : (c.authorized_party ≡ []) ⊎ (c.authorized_party ≡ v.client_id)

-- A token issued after 1970, at most a minute in the future, for at most ten minutes, of which some
-- are left.
pub record IsTimely (now : ℕ) (c : Claims) : Type 0 where
  pub issued_at : ℕ
  pub expiry : ℕ
  pub has_issued_at : c.issued_at ≡ some issued_at
  pub has_expiry : c.expiry ≡ some expiry
  pub after_epoch : epoch_seconds < issued_at
  pub not_expired : now < expiry * second
  pub ordered : issued_at < expiry
  pub brief : expiry * second ≤ issued_at * second + max_lifetime
  pub not_future : issued_at * second ≤ now + clock_skew
  pub begun : (date : ℕ) → c.not_before ≡ some date → date * second ≤ now + clock_skew

extra_ok_iff : (extra : List (Bytes × Option Bytes)) → (extra_ok extra ≡ true) ↔ All IsTypJwt extra
unfolding extra_ok
extra_ok_iff [] = ground arith
extra_ok_iff ((name, none) ∷ more) = ground arith
extra_ok_iff ((name, some value) ∷ more) = ground (arith, extra_ok_iff more)

header_ok_iff : (h : Header) → (header_ok h ≡ true) ↔ IsHeader h
unfolding header_ok
header_ok_iff h = ground (arith, extra_ok_iff h.extra)

any_iff :
    (client_id : Bytes) (audience : List Bytes)
    → (any (λ a. eqb a client_id) audience ≡ true) ↔ IsIn client_id audience
any_iff client_id [] = ground arith
any_iff client_id (a ∷ more) = ground (arith, any_iff client_id more)

all_true : (a b c : Bool) → c ≡ true → (a || c) && (b || c) ≡ true
all_true a b c h = ground arith

party_sound :
    (client_id : Bytes) (c : Claims)
    → party_ok client_id c ≡ true
    → ((length c.audience ≡ 1) ⊎ (c.authorized_party ≡ client_id))
      × ((c.authorized_party ≡ []) ⊎ (c.authorized_party ≡ client_id))
unfolding party_ok
party_sound client_id c e = elim (Bytes-discrete c.authorized_party client_id) [
  | yes h ↦ (inr h, inr h)
  | no h ↦ ground arith
]

eqb_complete : {a b : Bytes} → a ≡ b → eqb a b ≡ true
eqb_complete h = ground arith

party_complete :
    (client_id : Bytes) (c : Claims)
    → (length c.audience ≡ 1) ⊎ (c.authorized_party ≡ client_id)
    → (c.authorized_party ≡ []) ⊎ (c.authorized_party ≡ client_id)
    → party_ok client_id c ≡ true
unfolding party_ok
party_complete client_id c sole party = elim (Bytes-discrete c.authorized_party client_id) [
  | yes h ↦
      all_true (length c.audience == 1) (is_empty c.authorized_party)
        (eqb c.authorized_party client_id) (eqb_complete h)
  | no h ↦ ground arith
]

claims-IsAddressed :
    {Key : Type 0} (v : Verifier Key) (nonce : Bytes) (c : Claims)
    → ((subject_ok v.issuer v.client_id nonce c ≡ true) × (party_ok v.client_id c ≡ true))
      ↔ IsAddressed v nonce c
unfolding subject_ok
claims-IsAddressed v nonce c = (
  λ (s, p).
      let (sole, party) = party_sound v.client_id c p in
      record {
        issuer = ground arith;
        subject = ground arith;
        short = ground arith;
        audience = (any_iff v.client_id c.audience).0 (ground arith);
        same_login = ground arith;
        sole = sole;
        party = party;
      },
  λ h.
      let found = (any_iff v.client_id c.audience).1 h.audience in
      (
        ground (arith, h.issuer, h.subject, h.short, h.same_login, found),
        party_complete v.client_id c h.sole h.party,
      ),
)

times_sound :
    (now issued_at expiry : ℕ) (c : Claims)
    → c.issued_at ≡ some issued_at
    → c.expiry ≡ some expiry
    → times_ok now issued_at expiry ≡ true
    → not_before_ok now c.not_before ≡ true
    → IsTimely now c
unfolding times_ok not_before_ok
times_sound now issued_at expiry c hi he h hb = record {
  issued_at = issued_at;
  expiry = expiry;
  has_issued_at = hi;
  has_expiry = he;
  after_epoch = ground arith;
  not_expired = ground arith;
  ordered = ground arith;
  brief = ground arith;
  not_future = ground arith;
  begun = λ date e. ground arith;
}

times_complete :
    (now : ℕ) (c : Claims) (t : IsTimely now c)
    → (times_ok now t.issued_at t.expiry ≡ true) × (not_before_ok now c.not_before ≡ true)
unfolding times_ok not_before_ok
times_complete now c t = (
  ground arith,
  elim (Option-cases c.not_before) [
    | inl none_given ↦ rw none_given
    | inr (date, given) ↦ rw given (ground (arith, t.begun date given))
  ],
)

only-eq-some : {A : Type 0} (xs : List A) (a : A) → only xs ≡ some a → xs ≡ a ∷ []
only-eq-some [] a e = cc
only-eq-some (x ∷ []) a e = cc
only-eq-some (x ∷ y ∷ more) a e = cc

sizes_complete :
    (raw nonce : Bytes)
    → nonce ≢ []
    → length nonce ≤ 256
    → raw ≢ []
    → length raw ≤ max_token_bytes
    → sizes_ok raw nonce ≡ true
unfolding sizes_ok
sizes_complete raw nonce n n_short r r_short = ground arith

module _ (jose : Jose) where
  open jose use {Parsed, Key, parse_signed, headers, claims}

  check_claims-eq-ok :
      (v : Verifier Key) (now : ℕ) (nonce : Bytes) (c : Claims) (identity : Identity)
      → (check_claims jose v now nonce c ≡ ok identity) ↔ (
          IsAddressed v nonce c
          × IsTimely now c
          × (identity ≡ record { issuer = c.issuer; subject = c.subject }))
  unfolding check_claims
  check_claims-eq-ok v now nonce c identity = (
    λ e. elim (Option-cases c.expiry) [
      | inl none_given ↦ absurd (ground arith)
      | inr (expiry, he) ↦ elim (Option-cases c.issued_at) [
        | inl none_given ↦ absurd (ground arith)
        | inr (issued_at, hi) ↦ (
          (claims-IsAddressed v nonce c).0 (ground arith, ground arith),
          times_sound now issued_at expiry c hi he (ground arith) (ground arith),
          ground arith,
        )
      ]
    ],
    λ h.
        let (subject, party) = (claims-IsAddressed v nonce c).1 h.0 in
        let (times, begun) = times_complete now c h.1 in
        ground (arith, h.1.has_expiry, h.1.has_issued_at, h.2),
  )

  -- What `VerifyIDToken` has to find.
  pub record IsVerified (v : Verifier Key) (now : ℕ) (raw nonce : Bytes) (identity : Identity)
      : Type 0 where
    pub nonce_given : nonce ≢ []
    pub nonce_short : length nonce ≤ 256
    pub raw_given : raw ≢ []
    pub raw_short : length raw ≤ max_token_bytes
    pub parsed : Parsed
    pub header : Header
    pub key : Key
    pub claim_set : Claims
    pub parses : parse_signed raw ≡ some parsed
    pub one_header : headers parsed ≡ header ∷ []
    pub is_header : IsHeader header
    pub pinned : lookup Bytes-discrete header.key_id v.keys ≡ some key
    pub signed : claims parsed key ≡ some claim_set
    pub addressed : IsAddressed v nonce claim_set
    pub timely : IsTimely now claim_set
    pub names : identity ≡ record { issuer = claim_set.issuer; subject = claim_set.subject }

  verify-IsVerified :
      (v : Verifier Key) (now : ℕ) (raw nonce : Bytes) (identity : Identity)
      → verify_id_token jose (some v) now raw nonce ≡ ok identity
      → IsVerified v now raw nonce identity
  unfolding verify_id_token verify_parsed verify_header verify_signature sizes_ok
  verify-IsVerified v now raw nonce identity e =
      let (sizes, e1) =
        reject_if-then (not (sizes_ok raw nonce)) invalid_token
          (or_fail (parse_signed raw) invalid_token >>= verify_parsed jose v now nonce) e in
      let (parsed, parses, e2) =
        or_fail-then (parse_signed raw) invalid_token (verify_parsed jose v now nonce) e1 in
      let (header, one_header, e3) =
        or_fail-then (only (headers parsed)) invalid_token (verify_header jose v now nonce parsed)
          e2 in
      let (bad_header, e4) =
        reject_if-then (not (header_ok header)) invalid_token
          (or_fail (lookup Bytes-discrete header.key_id v.keys) invalid_token
            >>= verify_signature jose v now nonce parsed)
          e3 in
      let (key, pinned, e5) =
        or_fail-then (lookup Bytes-discrete header.key_id v.keys) invalid_token
          (verify_signature jose v now nonce parsed) e4 in
      let (claim_set, signed, e6) =
        or_fail-then (claims parsed key) invalid_token (check_claims jose v now nonce) e5 in
      let (addressed, timely, names) = (check_claims-eq-ok v now nonce claim_set identity).0 e6 in
      record {
        nonce_given = ground arith;
        nonce_short = ground arith;
        raw_given = ground arith;
        raw_short = ground arith;
        parsed = parsed;
        header = header;
        key = key;
        claim_set = claim_set;
        parses = parses;
        one_header = only-eq-some (headers parsed) header one_header;
        is_header = (header_ok_iff header).0 (ground arith);
        pinned = pinned;
        signed = signed;
        addressed = addressed;
        timely = timely;
        names = names;
      }

  IsVerified-verify :
      (v : Verifier Key) (now : ℕ) (raw nonce : Bytes) (identity : Identity)
      → IsVerified v now raw nonce identity
      → verify_id_token jose (some v) now raw nonce ≡ ok identity
  unfolding verify_id_token verify_parsed verify_header verify_signature
  IsVerified-verify v now raw nonce identity h =
      let accepted = (header_ok_iff h.header).1 h.is_header in
      let checked =
        (check_claims-eq-ok v now nonce h.claim_set identity).1 (h.addressed, h.timely, h.names) in
      rw
        (
          sizes_complete raw nonce h.nonce_given h.nonce_short h.raw_given h.raw_short,
          h.parses,
          h.one_header,
          accepted,
          h.pinned,
          h.signed,
        )
        checked

  -- `VerifyIDToken` returns an identity exactly if its verifier is not nil, the token is signed by the pinned key that its one
  -- header names, its claims are those of the pinned issuer for this client and this login, and it is
  -- within its lifetime; the identity is the issuer and subject of the claims.
  pub verify_id_token_iff :
      (verifier : Option (Verifier Key)) (now : ℕ) (raw nonce : Bytes) (identity : Identity)
      → (verify_id_token jose verifier now raw nonce ≡ ok identity)
        ↔ ((v : Verifier Key) × (verifier ≡ some v) × IsVerified v now raw nonce identity)
  unfolding verify_id_token
  verify_id_token_iff none now raw nonce identity = (λ e. cc, λ h. cc)
  verify_id_token_iff (some v) now raw nonce identity = (
    λ e. (v, refl, verify-IsVerified v now raw nonce identity e),
    λ (u, same, h). let it : v ≡ u = cc in rw it (IsVerified-verify u now raw nonce identity h),
  )
