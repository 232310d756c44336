-- ===== src/Ids/Accepted.antt =====
-- core/id/id.go, `New`, and web/middleware/middleware.go: a new ID is a correlation ID.
use stumpfworks_framework.Base.{
  ℕ, ◌+◌, ◌≡◌, refl, Bool, true, ◌||◌, [], ◌∷◌, ◌++◌, some, Bytes, Bytes-discrete, length, All, all,
  arith, length-append, is_lower, is_upper, is_digit, ◌==◌,
}
use mathlib.Core.List.{append-nil}
use stumpfworks_framework.Web.Middleware.{valid_request_id}
use stumpfworks_framework.Ids.{stamped, format, new}
use stumpfworks_framework.Ids.Shape.{AreBytes, IsHexDigit, IsHex, IsUuid, format-IsUuid}

-- A character of a correlation ID.
abbrev is_id_char : ℕ → Bool
is_id_char c = is_lower c || is_upper c || is_digit c || c == b'-' || c == b'_'

all-hex :
    (text more : Bytes)
    → All IsHexDigit text
    → all is_id_char more ≡ true
    → all is_id_char (text ++ more) ≡ true
all-hex [] more h rest = rest
all-hex (c ∷ text) more (first, h) rest = ground (arith, all-hex text more h rest)

-- So many characters of a correlation ID.
record Fits (n : ℕ) (text : Bytes) : Type 0 where
  size : length text ≡ n
  chars : all is_id_char text ≡ true

hex-Fits :
    {n m : ℕ} (text : Bytes) {more : Bytes}
    → IsHex n text
    → Fits m more
    → Fits (n + m) (text ++ more)
hex-Fits text {more} (size, digits) rest = record {
  size = omega (arith, length-append text more, rest.size);
  chars = all-hex text more digits rest.chars;
}

char-Fits :
    {n : ℕ} (c : ℕ) {text : Bytes} → is_id_char c ≡ true → Fits n text → Fits (1 + n) (c ∷ text)
char-Fits c good rest = record {
  size = omega (arith, rest.size);
  chars = rw (good, rest.chars) refl;
}

uuid-Fits : (text : Bytes) → IsUuid text → Fits 36 text
uuid-Fits text h =
    let none_left : Fits 0 [] = record { size = refl; chars = refl } in
    let node : Fits 12 h.node = rw append-nil at (hex-Fits h.node h.node-IsHex none_left) in
    let y : is_id_char h.variant ≡ true = ground (arith, h.variants) in
    let clock = char-Fits h.variant y (hex-Fits h.clock h.clock-IsHex (char-Fits b'-' refl node)) in
    let versioned =
      char-Fits b'4' refl (hex-Fits h.versioned h.versioned-IsHex (char-Fits b'-' refl clock)) in
    let mid = hex-Fits h.mid h.mid-IsHex (char-Fits b'-' refl versioned) in
    let whole = hex-Fits h.time h.time-IsHex (char-Fits b'-' refl mid) in rw (h.joined) whole

accepted : (text : Bytes) → Fits 36 text → valid_request_id text ≡ true
unfolding valid_request_id Bytes-discrete
accepted [] h = absurd (omega (arith, h.size))
accepted (c ∷ text) h = rw (h.size, h.chars) refl

-- From 16 bytes, `New` makes a UUID of version 4, and the middleware takes it as a correlation ID.
pub new-IsUuid :
    (value : Bytes)
    → length value ≡ 16
    → AreBytes value
    → (text : Bytes) × (new (some value) ≡ some text) × IsUuid text × (valid_request_id text ≡ true)
unfolding new
new-IsUuid value size bytes =
    let shape = format-IsUuid value size bytes in
    (format (stamped value), refl, shape, accepted _ (uuid-Fits _ shape))
