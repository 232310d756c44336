-- ===== src/Base/Ints.antt =====
-- Go's signed numbers, as settings use them: their sign and their order.
use Prim.Native.Nat.{ℕ, ◌<◌, ◌≤◌}
use mathlib.Core.Logic.{◌↔◌}
use mathlib.Core.Path.{◌≡◌, refl}
use native.Mathlib.Omega.{arith}
use mathlib.Core.Bool.{Bool, true, false, ◌||◌}
use stumpfworks_framework.Base.Tests.{ltb}

pub data ℤ : Type 0 where
  pos : ℕ → ℤ
  negsuc : ℕ → ℤ

abbrev pub is_positive : ℤ → Bool
is_positive (pos n) = ltb 0 n
is_positive (negsuc n) = false

abbrev pub is_negative : ℤ → Bool
is_negative (pos n) = false
is_negative (negsuc n) = true

-- `m > n`
abbrev pub exceeds : ℤ → ℤ → Bool
exceeds (pos m) (pos n) = ltb n m
exceeds (pos m) (negsuc n) = true
exceeds (negsuc m) (pos n) = false
exceeds (negsuc m) (negsuc n) = ltb m n

pub positive_cases : (z : ℤ) → is_positive z ≡ true → (n : ℕ) × (z ≡ pos n) × (0 < n)
positive_cases (pos n) h = (n, refl, ground arith)
positive_cases (negsuc n) h = cc

pub exceeds_cases : (z : ℤ) (m : ℕ) → exceeds z (pos m) ≡ true → (n : ℕ) × (z ≡ pos n) × (m < n)
exceeds_cases (pos n) m h = (n, refl, ground arith)
exceeds_cases (negsuc n) m h = cc

abbrev pub IsPositive : ℤ → Type 0
IsPositive (pos n) = 0 < n
IsPositive (negsuc n) = ⊥

abbrev pub IsNatural : ℤ → Type 0
IsNatural (pos n) = Unit {0}
IsNatural (negsuc n) = ⊥

-- Natural numbers `m ≤ n` of which the second is not 0.
pub record IsPoolRange (m n : ℤ) : Type 0 where
  pub low : ℕ
  pub high : ℕ
  pub is_low : m ≡ pos low
  pub is_high : n ≡ pos high
  pub ordered : low ≤ high
  pub some_connection : 0 < high

pub is_positive_iff : (z : ℤ) → (is_positive z ≡ true) ↔ IsPositive z
is_positive_iff (pos n) = ground arith
is_positive_iff (negsuc n) = ground arith

pub natural : (z : ℤ) → is_negative z ≡ false → IsNatural z
natural (pos n) h = tt
natural (negsuc n) h = cc

pub not_negative : (z : ℤ) → IsNatural z → is_negative z ≡ false
not_negative (pos n) h = refl
not_negative (negsuc n) h = absurd h

pub pool_range :
    (m n : ℤ) → is_positive n ≡ true → is_negative m || exceeds m n ≡ false → IsPoolRange m n
pool_range (pos m) (pos n) p h = record {
  low = m;
  high = n;
  is_low = refl;
  is_high = refl;
  ordered = ground arith;
  some_connection = ground arith;
}
pool_range (pos m) (negsuc n) p h = cc
pool_range (negsuc m) n p h = cc

pub range_accepted :
    (m n : ℤ) → IsPoolRange m n → (is_positive n ≡ true) × (is_negative m || exceeds m n ≡ false)
range_accepted m n r =
    rw (r.is_low, r.is_high)
      (ground (arith, r.ordered, r.some_connection), ground (arith, r.ordered, r.some_connection))
