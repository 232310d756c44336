-- ===== src/Web/Metrics/Auth/Bearer.antt =====
-- web/metrics/auth.go, `ProtectBearer`: which requests reach the metrics.
use stumpfworks_framework.Base.{
  ℕ, ◌≤◌, ◌≡◌, ◌↔◌, ◌⊎◌, inl, inr, refl, sym, true, not, ◌||◌, ltb, List, [], ◌∷◌, ◌++◌, some,
  Bytes, all, All, length, codes, ok, arith, Bool-cases, Option-cases,
}
use stumpfworks_framework.Web.Http.{
  Handler, Action, set_header, get, set, headers_after, reply, cache_control, www_authenticate,
  authorization, Request, Headers,
}
use stumpfworks_framework.Web.Metrics.Auth.{
  bearer, cut_prefix, valid_bearer_token, accepts, guard, protect_bearer,
}

-- 32 to 512 visible ASCII characters.
pub record IsToken (token : Bytes) : Type 0 where
  pub least : 32 ≤ length token
  pub most : length token ≤ 512
  pub visible : All (λ c. (b'!' ≤ c) × (c ≤ b'~')) token

visible_iff :
    (token : Bytes)
    → (all (λ value. not (ltb value 33 || ltb 126 value)) token ≡ true)
      ↔ All (λ c. (b'!' ≤ c) × (c ≤ b'~')) token
visible_iff [] = (λ e. tt, λ h. refl)
visible_iff (c ∷ token) = ground (arith, visible_iff token)

valid_iff : (token : Bytes) → (valid_bearer_token token ≡ true) ↔ IsToken token
unfolding valid_bearer_token
valid_iff token = (
  λ e. record {
    least = ground arith;
    most = ground arith;
    visible = ground (arith, visible_iff token);
  },
  λ h.
      let least = h.least in
      let most = h.most in let visible = (visible_iff token).1 h.visible in ground arith,
)

cut_prefix_sound :
    (prefix text rest : Bytes) → cut_prefix prefix text ≡ some rest → text ≡ prefix ++ rest
unfolding cut_prefix
cut_prefix_sound [] text rest e = ground arith
cut_prefix_sound (c ∷ prefix) [] rest e = cc
cut_prefix_sound (c ∷ prefix) (d ∷ text) rest e = ground (arith, cut_prefix_sound prefix text rest)

cut_prefix-append : (prefix rest : Bytes) → cut_prefix prefix (prefix ++ rest) ≡ some rest
unfolding cut_prefix
cut_prefix-append [] rest = refl
cut_prefix-append (c ∷ prefix) rest = ground (arith, cut_prefix-append prefix rest)

module _ (sha256 : Bytes → Bytes) where
  -- The request carries a token with the hash of the configured one.
  abbrev pub IsGranted : Bytes → Request → Type 0
  IsGranted token r =
      (provided : Bytes) × (get authorization r.headers ≡ bearer ++ provided)
      × IsToken provided
      × (sha256 provided ≡ sha256 token)

  accepts_iff :
      (token : Bytes) (r : Request)
      → (accepts sha256 (sha256 token) (get authorization r.headers) ≡ true) ↔ IsGranted token r
  unfolding accepts
  accepts_iff token r =
      let value = get authorization r.headers in
      (
        λ e. elim (Option-cases (cut_prefix bearer value)) [
          | inl other ↦ absurd (ground arith)
          | inr (provided, cut) ↦ (
            provided,
            cut_prefix_sound bearer value provided cut,
            (valid_iff provided).0 (ground arith),
            ground arith,
          )
        ],
        λ h.
            let (provided, sent, valid, same) = h in
            rw (sent, cut_prefix-append bearer provided, accepts, (valid_iff provided).1 valid)
              (ground (arith, same)),
      )

module _ (sha256 : Bytes → Bytes) (http_error : Bytes → ℕ → List Action) where
  -- The handler that `ProtectBearer` returns has a token of 32 to 512 visible ASCII characters. It runs
  -- the next handler exactly for the requests that carry, after `Bearer `, such a token with the hash of
  -- the configured one, and answers all others with a challenge and `http.Error` of status 401. `Cache-Control` is set to no-store
  -- before either.
  pub protect_bearer-IsGranted :
      (next : Handler) (token : Bytes) (handler : Handler) (r : Request) (h : Headers)
      → protect_bearer sha256 http_error (some next) token ≡ ok handler
      → let seen = set cache_control (codes "no-store") h in
        let no_store = set_header cache_control (codes "no-store") in
        IsToken token
        × ((IsGranted sha256 token r
              × (handler r h ≡ record (next r seen) { actions = no_store ∷ (next r seen).actions }))
            ⊎ ((IsGranted sha256 token r → ⊥)
                × (handler r h
                    ≡ reply (
                        no_store
                        ∷ set_header www_authenticate (codes "Bearer realm=\"metrics\"")
                        ∷ http_error (codes "unauthorized") 401))))
  unfolding protect_bearer guard headers_after
  protect_bearer-IsGranted next token handler r h e = elim (Bool-cases (valid_bearer_token token)) [
    | inr bad ↦ absurd (ground arith)
    | inl good ↦
        let same : guard sha256 http_error token next ≡ handler = ground arith in
        (
          (valid_iff token).0 good,
          rw (sym same)
              (elim (Bool-cases (accepts sha256 (sha256 token) (get authorization r.headers))) [
                | inl granted ↦ inl ((accepts_iff sha256 token r).0 granted, rw granted refl)
                | inr denied ↦
                    inr (λ g. let granted = (accepts_iff sha256 token r).1 g in cc, rw denied refl)
              ]),
        )
  ]
