-- ===== src/Ldap/Ber/Trees.antt =====
-- What a directory frame is, stated without the decoder of directory/ldap/framing.go: the encoding
-- of a tree of BER elements with definite lengths.
use Prim.Native.Nat.{max}
use stumpfworks_framework.Base.{
  ℕ, zero, suc, ◌+◌, ◌%◌, ◌≤◌, ◌≡◌, ◌≢◌, ◌⊎◌, true, false, [], ◌∷◌, ◌++◌, Bytes, length, big_endian,
}
use stumpfworks_framework.Ldap.Ber.{bit}

-- The octets of a high tag number: at most `count`, of which all but the last have bit 7.
abbrev pub TagOctets : ℕ → Bytes → Type 0
TagOctets zero octets = ⊥
TagOctets (suc count) [] = ⊥
TagOctets (suc count) (value ∷ more) =
    ((bit 7 value ≡ true) × TagOctets count more) ⊎ ((bit 7 value ≡ false) × (more ≡ []))

abbrev pub IsIdentifier : ℕ → Bytes → Type 0
IsIdentifier tag octets = ((tag % 32 ≢ 31) × (octets ≡ [])) ⊎ ((tag % 32 ≡ 31) × TagOctets 5 octets)

-- The short form is the length itself, the long form the count of one to four octets that follow.
abbrev pub IsLength : Bytes → ℕ → Type 0
IsLength [] n = ⊥
IsLength (first ∷ octets) n =
    ((bit 7 first ≡ false) × (octets ≡ []) × (n ≡ first))
    ⊎ ((bit 7 first ≡ true)
        × (length octets ≡ first % 128)
        × (1 ≤ length octets)
        × (length octets ≤ 4)
        × (n ≡ big_endian 0 octets))

pub record IsHeader (tag : ℕ) (head : Bytes) (n : ℕ) : Type 0 where
  pub identifier : Bytes
  pub lengths : Bytes
  pub split : head ≡ identifier ++ lengths
  pub identified : IsIdentifier tag identifier
  pub measured : IsLength lengths n

mutual
  pub data Tree : Type 0 where
    leaf : (tag : ℕ) (head contents : Bytes) → Tree
    node : (tag : ℕ) (head : Bytes) → Trees → Tree

  pub data Trees : Type 0 where
    nil : Trees
    cons : Tree → Trees → Trees

unfoldable mutual
  pub encode : Tree → Bytes
  encode (leaf tag head contents) = tag ∷ (head ++ contents)
  encode (node tag head ts) = tag ∷ (head ++ encode_all ts)

  pub encode_all : Trees → Bytes
  encode_all nil = []
  encode_all (cons t ts) = encode t ++ encode_all ts

-- The number of elements.
unfoldable mutual
  pub size : Tree → ℕ
  size (leaf tag head contents) = 1
  size (node tag head ts) = 1 + size_all ts

  pub size_all : Trees → ℕ
  size_all nil = 0
  size_all (cons t ts) = size t + size_all ts

-- The number of levels.
unfoldable mutual
  pub levels : Tree → ℕ
  levels (leaf tag head contents) = 1
  levels (node tag head ts) = 1 + levels_all ts

  pub levels_all : Trees → ℕ
  levels_all nil = 0
  levels_all (cons t ts) = max (levels t) (levels_all ts)

-- Bit 5 of the tag says whether an element holds elements, and its header gives the exact length
-- of what it holds.
unfoldable mutual
  pub IsWellFormed : Tree → Type 0
  IsWellFormed (leaf tag head contents) = (bit 5 tag ≡ false) × IsHeader tag head (length contents)
  IsWellFormed (node tag head ts) =
      (bit 5 tag ≡ true) × IsHeader tag head (length (encode_all ts)) × AreWellFormed ts

  pub AreWellFormed : Trees → Type 0
  AreWellFormed nil = Unit
  AreWellFormed (cons t ts) = IsWellFormed t × AreWellFormed ts

abbrev pub root_tag : Tree → ℕ
root_tag (leaf tag head contents) = tag
root_tag (node tag head ts) = tag
