-- ===== src/Web/Metrics/Auth.antt =====
-- web/metrics/auth.go: the bearer token in front of the metrics. SHA-256 and `http.Error` are
-- parameters.
pub mod Bearer
pub mod Tests
use stumpfworks_framework.Base.{
  ℕ, Bool, true, false, not, ◌&&◌, ◌||◌, List, [], ◌∷◌, ◌++◌, Option, none, some, Bytes, all,
  length, ltb, ◌==◌, eqb, is_empty, codes, if◌then◌else◌, Result, ok, err, ◌>>=◌, ◌>>◌, or_fail,
  reject_if,
}
use stumpfworks_framework.Web.Http.{
  Handler, Action, set_header, get, after, reply, cache_control, authorization, www_authenticate,
}

abbrev pub min_bearer_token_bytes : ℕ
min_bearer_token_bytes = 32

abbrev pub max_bearer_token_bytes : ℕ
max_bearer_token_bytes = 512

pub data Error : Type 0 where
  no_handler bad_token : Error

-- `validBearerToken`
unfoldable pub valid_bearer_token : Bytes → Bool
valid_bearer_token token =
    not (ltb (length token) min_bearer_token_bytes || ltb max_bearer_token_bytes (length token))
    && all (λ value. not (ltb value 33 || ltb 126 value)) token

-- `strings.CutPrefix`: the text without the prefix, or none where it does not begin with it.
unfoldable pub cut_prefix : Bytes → Bytes → Option Bytes
cut_prefix [] text = some text
cut_prefix (c ∷ prefix) [] = none
cut_prefix (c ∷ prefix) (d ∷ text) =
    let rest = cut_prefix prefix text in if c == d then rest else none

abbrev pub bearer : Bytes
bearer = codes "Bearer "

-- Whether a value of `Authorization` is accepted; a value without the prefix is not.
unfoldable pub accepts : (Bytes → Bytes) → Bytes → Bytes → Bool
accepts sha256 expected value = elim (cut_prefix bearer value) [
  | none ↦ false
  | some provided ↦ valid_bearer_token provided && eqb (sha256 provided) expected
]

module _ (sha256 : Bytes → Bytes) (http_error : Bytes → ℕ → List Action) where
  abbrev pub unauthorized : List Action
  unauthorized =
      set_header www_authenticate (codes "Bearer realm=\"metrics\"")
      ∷ http_error (codes "unauthorized") 401

  -- The handler that `ProtectBearer` returns.
  unfoldable pub guard : Bytes → Handler → Handler
  guard token next = after (set_header cache_control (codes "no-store") ∷ []) (λ r h.
      if accepts sha256 (sha256 token) (get authorization r.headers)
      then next r h
      else reply unauthorized)

  -- `ProtectBearer`
  unfoldable pub protect_bearer : Option Handler → Bytes → Result Error Handler
  protect_bearer next token = do
    handler ← or_fail next no_handler
    reject_if (not (valid_bearer_token token)) bad_token
    ok (guard token handler)
