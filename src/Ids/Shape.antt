-- ===== src/Ids/Shape.antt =====
-- core/id/id.go, `New`: the text is a UUID of version 4, which the HTTP middleware takes as a
-- correlation ID.
use stumpfworks_framework.Base.{
  ℕ, zero, suc, ◌+◌, ◌*◌, ◌/◌, ◌%◌, ◌<◌, ◌≤◌, ◌≡◌, ◌⊎◌, refl, ap, ◌∙◌, [], ◌∷◌, ◌++◌, Bytes, length,
  take, drop, All, all, arith, length-take, length-drop,
}
use stumpfworks_framework.Ids.{hex_digit, hex, update, with_version, with_variant, stamped, format}

abbrev pub AreBytes : Bytes → Type 0
AreBytes = All (λ b. b < 256)

abbrev pub IsHexDigit : ℕ → Type 0
IsHexDigit c = ((b'0' ≤ c) × (c ≤ b'9')) ⊎ ((b'a' ≤ c) × (c ≤ b'f'))

-- So many digits.
abbrev pub IsHex : ℕ → Bytes → Type 0
IsHex n text = (length text ≡ n) × All IsHexDigit text

-- `xxxxxxxx-xxxx-4xxx-yxxx-xxxxxxxxxxxx`, where `y` is 8, 9, a or b.
pub record IsUuid (text : Bytes) : Type 0 where
  pub time : Bytes
  pub mid : Bytes
  pub versioned : Bytes
  pub variant : ℕ
  pub clock : Bytes
  pub node : Bytes
  pub joined :
      text
      ≡ time ++ b'-' ∷ (mid ++ b'-' ∷ (b'4' ∷ versioned ++ b'-' ∷ (variant ∷ clock ++ b'-' ∷ node)))
  pub time-IsHex : IsHex 8 time
  pub mid-IsHex : IsHex 4 mid
  pub versioned-IsHex : IsHex 3 versioned
  pub variants : (variant ≡ b'8') ⊎ (variant ≡ b'9') ⊎ (variant ≡ b'a') ⊎ (variant ≡ b'b')
  pub clock-IsHex : IsHex 3 clock
  pub node-IsHex : IsHex 12 node

hex_digit-IsHexDigit : (v : ℕ) → v < 16 → IsHexDigit (hex_digit v)
unfolding hex_digit
hex_digit-IsHexDigit v h = ground arith

hex-IsHex : (bytes : Bytes) → AreBytes bytes → IsHex (2 * length bytes) (hex bytes)
unfolding hex
hex-IsHex [] h = (refl, tt)
hex-IsHex (b ∷ more) (first, rest) =
    let (size, digits) = hex-IsHex more rest in
    (
      omega (arith, size),
      (
        hex_digit-IsHexDigit (b / 16) (omega arith),
        (hex_digit-IsHexDigit (b % 16) (omega arith), digits),
      ),
    )

pub AreBytes-take : (n : ℕ) (bytes : Bytes) → AreBytes bytes → AreBytes (take n bytes)
AreBytes-take zero bytes h = tt
AreBytes-take (suc n) [] h = tt
AreBytes-take (suc n) (b ∷ more) (first, rest) = (first, AreBytes-take n more rest)

pub AreBytes-drop : (n : ℕ) (bytes : Bytes) → AreBytes bytes → AreBytes (drop n bytes)
AreBytes-drop zero bytes h = h
AreBytes-drop (suc n) [] h = tt
AreBytes-drop (suc n) (b ∷ more) (first, rest) = AreBytes-drop n more rest

AreBytes-update :
    (i : ℕ) (f : ℕ → ℕ) (bytes : Bytes)
    → ((b : ℕ) → f b < 256)
    → AreBytes bytes
    → AreBytes (update i f bytes)
unfolding update
AreBytes-update i f [] small h = tt
AreBytes-update zero f (b ∷ more) small (first, rest) = (small b, rest)
AreBytes-update (suc i) f (b ∷ more) small (first, rest) =
    (first, AreBytes-update i f more small rest)

length-update : (i : ℕ) (f : ℕ → ℕ) (bytes : Bytes) → length (update i f bytes) ≡ length bytes
unfolding update
length-update i f [] = refl
length-update zero f (b ∷ more) = refl
length-update (suc i) f (b ∷ more) = ap suc (length-update i f more)

-- The byte that is written begins what lies behind the index.
drop-update :
    (i : ℕ) (f : ℕ → ℕ) (bytes : Bytes)
    → i < length bytes
    → (b : ℕ) × (drop i (update i f bytes) ≡ f b ∷ drop (suc i) bytes)
unfolding update
drop-update i f [] h = absurd (omega arith)
drop-update zero f (b ∷ more) h = (b, refl)
drop-update (suc i) f (b ∷ more) h = drop-update i f more (omega arith)

-- A byte further on is written behind the cut.
drop-update_later :
    (n i j : ℕ) (f : ℕ → ℕ) (bytes : Bytes)
    → j ≡ n + i
    → drop n (update j f bytes) ≡ update i f (drop n bytes)
unfolding update
drop-update_later zero i j f bytes h = let same : j ≡ i = omega arith in rw same refl
drop-update_later (suc n) i zero f bytes h = absurd (omega arith)
drop-update_later (suc n) i (suc j) f [] h = refl
drop-update_later (suc n) i (suc j) f (b ∷ more) h = drop-update_later n i j f more (omega arith)

pub length-stamped : (value : Bytes) → length (stamped value) ≡ length value
length-stamped value =
    length-update 8 with_variant (update 6 with_version value) ∙ length-update 6 with_version value

pub AreBytes-stamped : (value : Bytes) → AreBytes value → AreBytes (stamped value)
AreBytes-stamped value bytes =
    AreBytes-update 8 with_variant (update 6 with_version value) (λ b. omega arith)
      (AreBytes-update 6 with_version value (λ b. omega arith) bytes)

variant_cases :
    (b : ℕ)
    → let c = hex_digit (with_variant b / 16) in (c ≡ b'8') ⊎ (c ≡ b'9') ⊎ (c ≡ b'a') ⊎ (c ≡ b'b')
unfolding hex_digit
variant_cases b = ground arith

version_digit : (b : ℕ) → hex_digit (with_version b / 16) ≡ b'4'
unfolding hex_digit
version_digit b = ground arith

hex_part :
    (n m : ℕ) (bytes : Bytes)
    → AreBytes bytes
    → n + m ≤ length bytes
    → IsHex (2 * n) (hex (take n (drop m bytes)))
hex_part n m bytes h long =
    let (size, digits) =
      hex-IsHex (take n (drop m bytes))
        (AreBytes-take n (drop m bytes) (AreBytes-drop m bytes h)) in
    (omega (arith, size, length-take n (drop m bytes), length-drop m bytes), digits)

-- A group of two bytes, of which the first is known.
hex_pair :
    (bytes : Bytes) (c d : ℕ) (rest : Bytes)
    → bytes ≡ c ∷ rest
    → hex_digit (c / 16) ≡ d
    → AreBytes bytes
    → 2 ≤ length bytes
    → (more : Bytes) × (hex (take 2 bytes) ≡ d ∷ more) × IsHex 3 more
unfolding hex
hex_pair [] c d rest h e all long = absurd (omega arith)
hex_pair (b ∷ more) c d rest h e all long =
    let same : b ≡ c = cc in
    let (size, (first, digits)) = hex_part 2 0 (b ∷ more) all long in
    (
      hex_digit (b % 16) ∷ hex (take 1 more),
      ap (λ x. x ∷ hex_digit (b % 16) ∷ hex (take 1 more)) (rw same e),
      (omega (arith, size), digits),
    )

pub format-IsUuid :
    (value : Bytes) → length value ≡ 16 → AreBytes value → IsUuid (format (stamped value))
unfolding format
format-IsUuid value size bytes =
    let once = update 6 with_version value in
    let twice = update 8 with_variant once in
    let size_once = length-update 6 with_version value in
    let size_twice = length-stamped value in
    let stamps = AreBytes-stamped value bytes in
    let (v, at_six) = drop-update 6 with_version value (omega arith) in
    let (w, at_eight) = drop-update 8 with_variant once (omega arith) in
    let later = drop-update_later 6 2 8 with_variant once refl in
    let here : drop 6 twice ≡ with_version v ∷ update 1 with_variant (drop 7 value) =
      later ∙ rw at_six (unfold update in refl) in
    let (versioned, group_three, versioned_hex) =
      hex_pair (drop 6 twice) (with_version v) b'4' _ here (version_digit v)
        (AreBytes-drop 6 twice stamps) (omega (arith, length-drop 6 twice)) in
    let (clock, group_four, clock_hex) =
      hex_pair (drop 8 twice) (with_variant w) _ _ at_eight refl (AreBytes-drop 8 twice stamps)
        (omega (arith, length-drop 8 twice)) in
    record {
      time = hex (take 4 twice);
      mid = hex (take 2 (drop 4 twice));
      versioned = versioned;
      variant = hex_digit (with_variant w / 16);
      clock = clock;
      node = hex (take 6 (drop 10 twice));
      joined = rw (group_three, group_four) refl;
      time-IsHex = hex_part 4 0 twice stamps (omega arith);
      mid-IsHex = hex_part 2 4 twice stamps (omega arith);
      versioned-IsHex = versioned_hex;
      variants = variant_cases w;
      clock-IsHex = clock_hex;
      node-IsHex = hex_part 6 10 twice stamps (omega arith);
    }
