-- ===== src/Sensitive.antt =====
-- security/sensitive.go, and the attribute filter of core/logging/logging.go, which calls it.
-- `strings.ToLower` is a parameter.
use stumpfworks_framework.Base.{
  ℕ, ◌-◌, Bool, ◌&&◌, ◌||◌, List, [], ◌∷◌, map, Bytes, any, drop, length, leb, eqb, ◌==◌, codes,
  if◌then◌else◌,
}

-- `sensitiveKeys`
abbrev pub sensitive_keys : List Bytes
sensitive_keys =
    codes "password"
    ∷ codes "passwd"
    ∷ codes "secret"
    ∷ codes "token"
    ∷ codes "authorization"
    ∷ codes "cookie"
    ∷ codes "api_key"
    ∷ codes "database_url"
    ∷ codes "dsn"
    ∷ codes "private_key"
    ∷ []

-- `strings.HasSuffix`
abbrev pub has_suffix : Bytes → Bytes → Bool
has_suffix text suffix =
    leb (length suffix) (length text) && eqb (drop (length text - length suffix) text) suffix

-- `strings.ReplaceAll`, from a byte to a byte.
abbrev pub replace_byte : ℕ → ℕ → Bytes → Bytes
replace_byte from to text = map (λ c. if c == from then to else c) text

-- A log attribute whose value is a text.
pub record Attr : Type 0 where
  pub key : Bytes
  pub value : Bytes

module _ (lower : Bytes → Bytes) where
  abbrev pub normalized : Bytes → Bytes
  normalized key = lower (replace_byte b'.' b'_' (replace_byte b'-' b'_' key))

  -- `IsSensitiveKey`
  unfoldable pub is_sensitive_key : Bytes → Bool
  is_sensitive_key key =
      any (λ s. eqb (normalized key) s || has_suffix (normalized key) (b'_' ∷ s)) sensitive_keys

  -- `redactAttr`
  unfoldable pub redact_attr : Attr → Attr
  redact_attr a = if is_sensitive_key a.key then record a { value = codes "[REDACTED]" } else a
