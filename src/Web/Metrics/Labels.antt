-- ===== src/Web/Metrics/Labels.antt =====
-- web/metrics/metrics.go, `quote`: a value in a label cannot end it.
use stumpfworks_framework.Base.{
  ℕ, ◌≡◌, ◌≢◌, refl, ap, Bool, true, false, [], ◌∷◌, ◌++◌, Option, none, some, Bytes, All, arith,
  ◌==◌, codes, if◌then◌else◌,
}
use mathlib.Core.List.{append_assoc}
use stumpfworks_framework.Base.Optional.{◌>>=◌}
use stumpfworks_framework.Web.Metrics.Exposition.{replace, escaped, quote}

-- A label's value in the text format: up to the closing quote, with the escapes read, and the rest.
-- The flag says that the byte before was a backslash.
unfoldable pub read_value : Bool → Bytes → Option (Bytes × Bytes)
read_value after_backslash [] = none
read_value true (c ∷ more) = do
  (value, rest) ← read_value false more
  some ((if c == b'n' then b'\n' else c) ∷ value, rest)
read_value false (c ∷ more) =
    let escape = read_value true more in
    let plain = read_value false more in
    if c == b'"'
    then some ([], more)
    else if c == b'\\'
    then escape
    else (do (value, rest) ← plain; some (c ∷ value, rest))

-- The escape of one byte.
abbrev escape : ℕ → Bytes
escape c =
    if c == b'\\'
    then codes "\\\\"
    else if c == b'\n'
    then codes "\\n"
    else if c == b'"'
    then codes "\\\""
    else c ∷ []

read_escape :
    (c : ℕ) (value rest : Bytes)
    → read_value false (escaped value ++ b'"' ∷ rest) ≡ some (value, rest)
    → read_value false ((escape c ++ escaped value) ++ b'"' ∷ rest) ≡ some (c ∷ value, rest)
unfolding read_value
read_escape c value rest tail = ground arith

escaped-cons : (c : ℕ) (value : Bytes) → escaped (c ∷ value) ≡ escape c ++ escaped value
unfolding replace
escaped-cons c value = ground arith

read_escaped :
    (value rest : Bytes) → read_value false (escaped value ++ b'"' ∷ rest) ≡ some (value, rest)
unfolding read_value replace
read_escaped [] rest = refl
read_escaped (c ∷ value) rest =
    let tail = read_escaped value rest in
    let head = escaped-cons c value in rw head (read_escape c value rest tail)

IsOneLine : Bytes → Type 0
IsOneLine = All (λ c. c ≢ b'\n')

IsOneLine-escape :
    (c : ℕ) (text rest : Bytes) → IsOneLine (text ++ rest) → IsOneLine ((escape c ++ text) ++ rest)
unfolding IsOneLine
IsOneLine-escape c text rest h = ground arith

IsOneLine-escaped : (value : Bytes) → IsOneLine (escaped value ++ b'"' ∷ [])
unfolding IsOneLine replace
IsOneLine-escaped [] = (omega arith, tt)
IsOneLine-escaped (c ∷ value) =
    let tail = IsOneLine-escaped value in
    rw (escaped-cons c value) (IsOneLine-escape c (escaped value) (b'"' ∷ []) tail)

-- Whatever bytes a value has, a reader of the text format gets it back from its quoted text, and
-- stands behind it: a route or a method cannot end its label or start another line.
pub read_quote :
    (value rest : Bytes)
    → (line : Bytes) × (quote value ++ rest ≡ b'"' ∷ line)
      × (read_value false line ≡ some (value, rest))
      × All (λ c. c ≢ b'\n') (quote value)
unfolding quote IsOneLine
read_quote value rest = (
  escaped value ++ b'"' ∷ rest,
  ap (◌∷◌ b'"') (append_assoc (escaped value) (b'"' ∷ []) rest),
  read_escaped value rest,
  (omega arith, IsOneLine-escaped value),
)
