-- ===== src/Ldap/Ber/Headers.antt =====
-- directory/ldap/framing.go: the decoder of identifier and length octets meets their grammar.
use mathlib.Core.List.{append_assoc}
use stumpfworks_framework.Base.{
  big_endian, ℕ, zero, suc, ◌+◌, ◌*◌, ◌%◌, ◌≤◌, ◌≡◌, refl, sym, ◌∙◌, ap, inl, inr, [], ◌∷◌, ◌++◌,
  Bytes, length, take, some, arith, take-append-drop, length-take, length-append, take-append,
  drop-append, Bool-cases, Option-cases, ◌==◌,
}
use stumpfworks_framework.Ldap.Ber.{
  bit, tag_octets, length_octets, long_length, read_length, read_tag, header, max_frame_bytes,
}
use stumpfworks_framework.Ldap.Ber.Trees.{TagOctets, IsIdentifier, IsLength, IsHeader}

tag_octets_sound :
    (count : ℕ) (rest behind : Bytes)
    → tag_octets count rest ≡ some behind
    → (octets : Bytes) × (rest ≡ octets ++ behind) × TagOctets count octets
unfolding tag_octets
tag_octets_sound zero rest behind e = cc
tag_octets_sound (suc count) [] behind e = cc
tag_octets_sound (suc count) (value ∷ rest) behind e = elim (Bool-cases (bit 7 value)) [
  | inl more ↦
      let (octets, split, h) = tag_octets_sound count rest behind (ground arith) in
      (value ∷ octets, ground arith, inl (more, h))
  | inr last ↦ (value ∷ [], ground arith, inr (last, refl))
]

tag_octets_complete :
    (count : ℕ) (octets behind : Bytes)
    → TagOctets count octets
    → tag_octets count (octets ++ behind) ≡ some behind
unfolding tag_octets
tag_octets_complete zero octets behind h = absurd h
tag_octets_complete (suc count) [] behind h = absurd h
tag_octets_complete (suc count) (value ∷ more) behind (inl (b, h)) =
    rw b (tag_octets_complete count more behind h)
tag_octets_complete (suc count) (value ∷ more) behind (inr (b, h)) = rw (b, h)

le-big_endian : (acc : ℕ) (octets : Bytes) → acc ≤ big_endian acc octets
le-big_endian acc [] = omega arith
le-big_endian acc (value ∷ more) = omega (arith, le-big_endian (acc * 256 + value) more)

length_octets_sound :
    (acc n : ℕ) (octets : Bytes) → length_octets acc octets ≡ some n → n ≡ big_endian acc octets
unfolding length_octets
length_octets_sound acc n [] e = ground arith
length_octets_sound acc n (value ∷ more) e =
    ground (arith, length_octets_sound (acc * 256 + value) n more)

-- The check before each shift refuses no length that a frame can have.
length_octets_complete :
    (acc n : ℕ) (octets : Bytes)
    → n ≤ max_frame_bytes
    → n ≡ big_endian acc octets
    → length_octets acc octets ≡ some n
unfolding length_octets
length_octets_complete acc n [] h e = ground arith
length_octets_complete acc n (value ∷ more) h e = ground (
  arith,
  length_octets_complete (acc * 256 + value) n more h e,
  le-big_endian (acc * 256 + value) more,
)

abbrev IsLong : ℕ → Bytes → ℕ → Type 0
IsLong count octets n =
    (length octets ≡ count) × (1 ≤ count) × (count ≤ 4) × (n ≡ big_endian 0 octets)

long_length_sound :
    (count n : ℕ) (rest contents : Bytes)
    → long_length count rest ≡ some (n, contents)
    → (rest ≡ take count rest ++ contents) × IsLong count (take count rest) n
unfolding long_length
long_length_sound count n rest contents e =
    let cut = take-append-drop count rest in
    let taken = length-take count rest in
    (
      ground (arith, cut),
      (
        ground (arith, taken),
        ground arith,
        ground arith,
        ground (arith, length_octets_sound 0 n (take count rest)),
      ),
    )

long_length_complete :
    (n : ℕ) (octets contents : Bytes)
    → n ≤ max_frame_bytes
    → IsLong (length octets) octets n
    → long_length (length octets) (octets ++ contents) ≡ some (n, contents)
unfolding long_length
long_length_complete n octets contents h (_, low, high, value) =
    let parsed = length_octets_complete 0 n octets h value in
    rw
      (
        take-append (length octets) octets contents refl,
        drop-append (length octets) octets contents refl,
        parsed,
      )
      (ground (arith, length-append octets contents))

read_length_sound :
    (rest contents : Bytes) (n : ℕ)
    → read_length rest ≡ some (n, contents)
    → (octets : Bytes) × (rest ≡ octets ++ contents) × IsLength octets n
unfolding read_length
read_length_sound [] contents n e = cc
read_length_sound (first ∷ rest) contents n e = elim (Bool-cases (bit 7 first)) [
  | inl long ↦
      let (cut, (same, low, high, value)) =
        long_length_sound (first % 128) n rest contents (ground arith) in
      (
        first ∷ take (first % 128) rest,
        ap (◌∷◌ first) cut,
        inr (long, same, omega arith, omega arith, value),
      )
  | inr short ↦ (first ∷ [], ground arith, inl (short, refl, ground arith))
]

read_length_complete :
    (octets contents : Bytes) (n : ℕ)
    → n ≤ max_frame_bytes
    → IsLength octets n
    → read_length (octets ++ contents) ≡ some (n, contents)
unfolding read_length
read_length_complete [] contents n h l = absurd l
read_length_complete (first ∷ octets) contents n h (inl (short, none_left, same)) =
    rw (short, none_left, same)
read_length_complete (first ∷ octets) contents n h (inr (long, same, low, high, value)) =
    rw (long, ← same) (long_length_complete n octets contents h (refl, low, high, value))

read_tag_sound :
    (tag : ℕ) (rest behind : Bytes)
    → read_tag tag rest ≡ some behind
    → (octets : Bytes) × (rest ≡ octets ++ behind) × IsIdentifier tag octets
unfolding read_tag
read_tag_sound tag rest behind e = elim (Bool-cases (tag % 32 == 31)) [
  | inl high ↦
      let (octets, cut, h) = tag_octets_sound 5 rest behind (ground arith) in
      (octets, cut, inr (ground arith, h))
  | inr low ↦ ([], ground arith, inl (ground arith, refl))
]

read_tag_complete :
    (tag : ℕ) (octets behind : Bytes)
    → IsIdentifier tag octets
    → read_tag tag (octets ++ behind) ≡ some behind
unfolding read_tag
read_tag_complete tag octets behind (inl (low, empty)) = ground arith
read_tag_complete tag octets behind (inr (high, h)) =
    ground (arith, tag_octets_complete 5 octets behind h)

header-eq-some :
    (tag n : ℕ) (rest contents : Bytes)
    → header tag rest ≡ some (n, contents)
    → (behind : Bytes) × (read_tag tag rest ≡ some behind)
      × (read_length behind ≡ some (n, contents))
      × (n ≤ length contents)
unfolding header
header-eq-some tag n rest contents e = elim (Option-cases (read_tag tag rest)) [
  | inl failed ↦ ground arith
  | inr (behind, found) ↦ (behind, found, ground arith, ground arith)
]

-- A header that is read is one of the grammar, and its contents are there.
pub header_sound :
    (tag n : ℕ) (rest contents : Bytes)
    → header tag rest ≡ some (n, contents)
    → (head : Bytes) × (rest ≡ head ++ contents) × IsHeader tag head n × (n ≤ length contents)
header_sound tag n rest contents e =
    let (behind, tag_read, length_read, fits) = header-eq-some tag n rest contents e in
    let (identifier, cut, identified) = read_tag_sound tag rest behind tag_read in
    let (lengths, cut', measured) = read_length_sound behind contents n length_read in
    (
      identifier ++ lengths,
      cut ∙ ap (◌++◌ identifier) cut' ∙ sym (append_assoc identifier lengths contents),
      record {
        identifier = identifier;
        lengths = lengths;
        split = refl;
        identified = identified;
        measured = measured;
      },
      fits,
    )

-- Each header of the grammar is read, for contents that a frame can have.
pub header_complete :
    (tag n : ℕ) (head contents : Bytes)
    → IsHeader tag head n
    → n ≤ length contents
    → n ≤ max_frame_bytes
    → header tag (head ++ contents) ≡ some (n, contents)
unfolding header
header_complete tag n head contents h fits bound =
    rw
      (
        h.split,
        append_assoc h.identifier h.lengths contents,
        read_tag_complete tag h.identifier (h.lengths ++ contents) h.identified,
        read_length_complete h.lengths contents n bound h.measured,
      )
      (ground arith)
