-- ===== src/Base/BigEndian.antt =====
-- encoding/binary's big-endian numbers.
use native.Mathlib.Nat.{pow-suc}
use stumpfworks_framework.Base.Text.{Bytes}
use stumpfworks_framework.Base.Lists.{length, length-append}
use Prim.Native.Nat.{ℕ, zero, suc, ◌+◌, ◌*◌, ◌/◌, ◌%◌, ◌^◌, ◌<◌}
use mathlib.Core.Path.{◌≡◌, refl}
use mathlib.Core.List.{[], ◌∷◌, ◌++◌}
use native.Mathlib.Omega.{arith}

-- Octets read as a number, the most significant first, behind what `acc` has read.
abbrev pub big_endian : ℕ → Bytes → ℕ
big_endian acc [] = acc
big_endian acc (value ∷ more) = big_endian (acc * 256 + value) more

-- The `count` low bytes of a number.
abbrev pub to_big_endian : ℕ → ℕ → Bytes
to_big_endian zero n = []
to_big_endian (suc count) n = to_big_endian count (n / 256) ++ n % 256 ∷ []

pub length-to_big_endian : (count n : ℕ) → length (to_big_endian count n) ≡ count
length-to_big_endian zero n = refl
length-to_big_endian (suc count) n = omega (
  arith,
  length-append (to_big_endian count (n / 256)) (n % 256 ∷ []),
  length-to_big_endian count (n / 256),
)

big_endian-append :
    (acc b : ℕ) (xs : Bytes) → big_endian acc (xs ++ b ∷ []) ≡ big_endian acc xs * 256 + b
big_endian-append acc b [] = refl
big_endian-append acc b (x ∷ xs) = big_endian-append (acc * 256 + x) b xs

pub big_endian-to_big_endian :
    (count n : ℕ) → n < 256 ^ count → big_endian 0 (to_big_endian count n) ≡ n
big_endian-to_big_endian zero n h = omega arith
big_endian-to_big_endian (suc count) n h = omega (
  arith,
  big_endian-append 0 (n % 256) (to_big_endian count (n / 256)),
  big_endian-to_big_endian count (n / 256) (omega (arith, pow-suc 256 count)),
)
