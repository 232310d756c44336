-- ===== src/Ldap/Ber.antt =====
-- directory/ldap/framing.go, `validateBERFrame` and `validateBERElement`. A slice `data[index:]` is
-- the list of the bytes that are left, so `index` is the length of `data` less the length of the rest.
-- The recursion takes fuel; `exhausted` says that it ran out, and Ber/Fuel shows that it never does.
pub mod Fuel
pub mod Trees
pub mod Headers
pub mod Complete
pub mod Frames
pub mod Tests
pub mod Sound
use stumpfworks_framework.Base.{
  ℕ, zero, suc, ◌+◌, ◌-◌, ◌*◌, ◌/◌, ◌%◌, ◌^◌, Bool, true, false, not, ◌||◌, List, [], ◌∷◌, Option,
  none, some, Bytes, length, take, drop, ltb, leb, ◌==◌, if◌then◌else◌,
}
use stumpfworks_framework.Base.Optional.{◌>>=◌, ◌>>◌, assert}

abbrev pub max_frame_bytes : ℕ
max_frame_bytes = 2 ^ 20

abbrev pub max_depth : ℕ
max_depth = 32

abbrev pub max_nodes : ℕ
max_nodes = 4096

-- Bit `k` of a byte: `value & 0x80 != 0` at 7, `tag & 0x20 != 0` at 5.
abbrev pub bit : ℕ → ℕ → Bool
bit k value = (value / 2 ^ k) % 2 == 1

-- The loop over the octets of a high tag number: `count` rounds are left of five.
tag_octets : ℕ → Bytes → Option Bytes
tag_octets zero rest = none
tag_octets (suc count) [] = none
tag_octets (suc count) (value ∷ rest) =
    let more = tag_octets count rest in if bit 7 value then more else some rest

-- The loop over the octets of a long length, with the check before each shift.
unfoldable pub length_octets : ℕ → Bytes → Option ℕ
length_octets len [] = some len
length_octets len (value ∷ more) =
    let rest = length_octets (len * 256 + value) more in
    if ltb (2 ^ 20 / 2 ^ 8) len then none else rest

-- A length in the long form: its value, and `data[index:]` behind it.
long_length : ℕ → Bytes → Option (ℕ × Bytes)
long_length octets rest = do
  assert (not (ltb octets 1 || ltb 4 octets || ltb (length rest) octets))
  len ← length_octets 0 (take octets rest)
  some (len, drop octets rest)

read_length : Bytes → Option (ℕ × Bytes)
read_length [] = none
read_length (first ∷ rest) =
    if bit 7 first then long_length (first % 128) rest else some (first, rest)

read_tag : ℕ → Bytes → Option Bytes
read_tag tag rest = if tag % 32 == 31 then tag_octets 5 rest else some rest

-- The identifier and length octets: the length of the contents, and `data[index:]` behind the header.
unfoldable pub header : ℕ → Bytes → Option (ℕ × Bytes)
unfolding read_tag tag_octets read_length long_length length_octets
header tag rest = do
  behind_tag ← read_tag tag rest
  (len, contents) ← read_length behind_tag
  assert (leb len (length contents))
  some (len, contents)

pub data Verdict : Type 0 where
  -- The end of the element, and the count of nodes so far.
  valid : ℕ → ℕ → Verdict
  invalid exhausted : Verdict

abbrev on_valid : Verdict → (ℕ → ℕ → Verdict) → Verdict
on_valid (valid end nodes) k = k end nodes
on_valid invalid k = invalid
on_valid exhausted k = exhausted

mutual
  pub element : ℕ → Bytes → ℕ → ℕ → Verdict
  element zero data' depth nodes = exhausted
  element (suc fuel) [] depth nodes = invalid
  element (suc fuel) (tag ∷ rest) depth nodes =
      if ltb max_depth depth || ltb max_nodes (nodes + 1) || length rest == 0
      then invalid
      else elim (header tag rest) [
        | none ↦ invalid
        | some (len, contents) ↦
            let index = length (tag ∷ rest) - length contents in
            if bit 5 tag
            then on_valid (children fuel (take len contents) (depth + 1) (nodes + 1))
                (λ _ counted. valid (index + len) counted)
            else valid (index + len) (nodes + 1)
      ]

  -- `for index < end`, on `data[index:end]`.
  pub children : ℕ → Bytes → ℕ → ℕ → Verdict
  children fuel [] depth nodes = valid 0 nodes
  children zero (b ∷ rest) depth nodes = exhausted
  children (suc fuel) (b ∷ rest) depth nodes =
      on_valid (element fuel (b ∷ rest) depth nodes)
        (λ consumed counted. children fuel (drop consumed (b ∷ rest)) depth counted)

-- `err == nil && end == len(frame)`
abbrev covers : ℕ → Verdict → Bool
covers n (valid end counted) = end == n
covers n invalid = false
covers n exhausted = false

unfoldable pub validate_ber_frame : Bytes → Bool
unfolding element
validate_ber_frame [] = false
validate_ber_frame (tag ∷ rest) =
    let frame = tag ∷ rest in
    if ltb (length frame) 2 || ltb max_frame_bytes (length frame) || not (tag == 0x30)
    then false
    else covers (length frame) (element (length frame + 2) frame 0 0)
