-- ===== src/Ids.antt =====
-- core/id/id.go: random identifiers. The bytes that `rand.Read` has filled the array with are an
-- argument, `none` where it failed.
pub mod Shape
pub mod Accepted
pub mod Random
pub mod Tests
use stumpfworks_framework.Base.{
  ℕ, zero, suc, ◌+◌, ◌-◌, ◌/◌, ◌%◌, List, [], ◌∷◌, ◌++◌, Option, none, some, Bytes, ltb, take, drop,
  if◌then◌else◌,
}
use stumpfworks_framework.Base.Optional.{◌>>=◌}

-- The digit of four bits.
unfoldable pub hex_digit : ℕ → ℕ
hex_digit v = if ltb v 10 then v + b'0' else v - 10 + b'a'

-- `%0nx` of n / 2 bytes: two digits for each.
unfoldable pub hex : Bytes → Bytes
hex [] = []
hex (b ∷ more) = hex_digit (b / 16) ∷ hex_digit (b % 16) ∷ hex more

-- `value[i] = f(value[i])`
unfoldable pub update : ℕ → (ℕ → ℕ) → Bytes → Bytes
update i f [] = []
update zero f (b ∷ more) = f b ∷ more
update (suc i) f (b ∷ more) = b ∷ update i f more

-- `b & 0x0f | 0x40`, and `b & 0x3f | 0x80`: the bits that are set are not in the mask.
abbrev pub with_version : ℕ → ℕ
with_version b = b % 16 + 64

abbrev pub with_variant : ℕ → ℕ
with_variant b = b % 64 + 128

abbrev pub stamped : Bytes → Bytes
stamped value = update 8 with_variant (update 6 with_version value)

-- `fmt.Sprintf`, for the array.
unfoldable pub format : Bytes → Bytes
format v =
    hex (take 4 v)
    ++ b'-'
      ∷ (hex (take 2 (drop 4 v))
          ++ b'-'
            ∷ (hex (take 2 (drop 6 v))
                ++ b'-' ∷ (hex (take 2 (drop 8 v)) ++ b'-' ∷ hex (take 6 (drop 10 v)))))

-- `New`
unfoldable pub new : Option Bytes → Option Bytes
new drawn = do value ← drawn; some (format (stamped value))
