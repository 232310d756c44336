-- ===== src/Oidc/Base64.antt =====
-- The unpadded URL-safe base64 of Go's encoding/base64, as auth/oidc/store.go (`decodeBinding`) and
-- auth/oidc/login.go (`randomURLString`) use it. The decoder skips line ends and, not being strict,
-- ignores the bits behind the last whole byte.
pub mod RoundTrip
pub mod Tests
use stumpfworks_framework.Base.{
  ℕ, zero, suc, ◌+◌, ◌-◌, ◌*◌, ◌/◌, ◌%◌, Bool, true, false, not, ◌&&◌, ◌||◌, List, [], ◌∷◌, ◌++◌,
  Option, none, some, Bytes, length, ltb, ◌==◌, eqb, if◌then◌else◌, is_upper, is_lower, is_digit,
}
use stumpfworks_framework.Base.Optional.{◌>>=◌, ◌>>◌, assert}

-- The character of six bits.
pub character : ℕ → ℕ
character v =
    if ltb v 26
    then v + b'A'
    else if ltb v 52
    then v - 26 + b'a'
    else if ltb v 62
    then v - 52 + b'0'
    else if v == 62
    then b'-'
    else b'_'

pub sextet : ℕ → Option ℕ
sextet c =
    if is_upper c
    then some (c - b'A')
    else if is_lower c
    then some (c - b'a' + 26)
    else if is_digit c
    then some (c - b'0' + 52)
    else if c == b'-'
    then some 62
    else if c == b'_'
    then some 63
    else none

-- `base64.RawURLEncoding.EncodeToString`
unfoldable pub encode : Bytes → Bytes
unfolding character
encode [] = []
encode (a ∷ []) = character (a / 4) ∷ character (a % 4 * 16) ∷ []
encode (a ∷ b ∷ []) =
    character (a / 4) ∷ character (a % 4 * 16 + b / 16) ∷ character (b % 16 * 4) ∷ []
encode (a ∷ b ∷ c ∷ rest) =
    character (a / 4)
    ∷ character (a % 4 * 16 + b / 16)
    ∷ character (b % 16 * 4 + c / 64)
    ∷ character (c % 64)
    ∷ encode rest

pub strip : Bytes → Bytes
strip [] = []
strip (c ∷ rest) = let more = strip rest in if c == b'\r' || c == b'\n' then more else c ∷ more

pub sextets : Bytes → Option (List ℕ)
unfolding sextet
sextets [] = some []
sextets (c ∷ rest) = do v ← sextet c; more ← sextets rest; some (v ∷ more)

pub group : List ℕ → Option Bytes
group [] = some []
group (p ∷ []) = none
group (p ∷ q ∷ []) = some ((p * 4 + q / 16) ∷ [])
group (p ∷ q ∷ r ∷ []) = some ((p * 4 + q / 16) ∷ (q % 16 * 16 + r / 4) ∷ [])
group (p ∷ q ∷ r ∷ s ∷ rest) = do
  more ← group rest
  some ((p * 4 + q / 16) ∷ (q % 16 * 16 + r / 4) ∷ (r % 4 * 64 + s) ∷ more)

-- `base64.RawURLEncoding.DecodeString`
unfoldable pub decode : Bytes → Option Bytes
unfolding strip sextets group
decode text = do values ← sextets (strip text); group values

-- A browser secret, or a state, nonce or PKCE verifier: the canonical text of 32 bytes.
unfoldable pub decode_binding : Bytes → Option Bytes
decode_binding binding = do
  assert (length binding == 43)
  decoded ← decode binding
  assert (length decoded == 32 && eqb (encode decoded) binding)
  some decoded

-- `randomURLString`, for the 32 bytes that `rand.Read` has drawn; `none` where it failed.
unfoldable pub random_url_string : Option Bytes → Option Bytes
random_url_string drawn = do bytes ← drawn; some (encode bytes)
