-- ===== src/Authz/Grammar.antt =====
-- authz/permissions.go: `Parse` against the grammar of permission keys, read off the dot-separated
-- segments.
use stumpfworks_framework.Base.{
  ℕ, ◌≤◌, ◌≡◌, ◌⊎◌, refl, ◌↔◌, ◌≢◌, Bool, true, false, List, [], ◌∷◌, arith, Bytes, length, All,
  ◌==◌, if◌then◌else◌, is_lower, ok,
}
use stumpfworks_framework.Authz.{is_key_char, scan, parse}

-- The text up to the first dot, and the segments behind it.
pub segments : Bytes → Bytes × List Bytes
segments [] = ([], [])
segments (c ∷ rest) =
    let (head, more) = segments rest in if c == b'.' then ([], head ∷ more) else (c ∷ head, more)

abbrev pub IsLetter : ℕ → Type 0
IsLetter c = (b'a' ≤ c) × (c ≤ b'z')

abbrev pub IsDigit : ℕ → Type 0
IsDigit c = (b'0' ≤ c) × (c ≤ b'9')

abbrev pub IsKeyChar : ℕ → Type 0
IsKeyChar c = IsLetter c ⊎ IsDigit c ⊎ (c ≡ b'-') ⊎ (c ≡ b'_')

abbrev pub IsSegment : Bytes → Type 0
IsSegment [] = ⊥
IsSegment (c ∷ rest) = IsLetter c × All IsKeyChar rest

abbrev pub IsKey : Bytes → Type 0
IsKey value = (length value ≤ 100) × IsSegment (segments value).0 × All IsSegment (segments value).1

-- What the loop has still to see, at the start of a segment and in the middle of one.
abbrev Fits : Bool → Bytes → Type 0
Fits true s = IsSegment (segments s).0 × All IsSegment (segments s).1
Fits false s = All IsKeyChar (segments s).0 × All IsSegment (segments s).1

is_lower-IsLetter : (c : ℕ) → (is_lower c ≡ true) ↔ IsLetter c
is_lower-IsLetter c = (λ e. ground arith, λ h. ground arith)

is_key_char-IsKeyChar : (c : ℕ) → is_key_char c ≡ true → IsKeyChar c
is_key_char-IsKeyChar c e = ground arith

IsKeyChar-is_key_char : (c : ℕ) → IsKeyChar c → is_key_char c ≡ true
IsKeyChar-is_key_char c h = ground arith

scan_sound :
    (start : Bool) (s : Bytes) → (start ≡ true → s ≢ []) → scan start s ≡ ok tt → Fits start s
unfolding scan segments
scan_sound true [] h e = absurd (h refl refl)
scan_sound false [] h e = (tt, tt)
scan_sound true (c ∷ rest) h e = ground (arith, scan_sound false rest (λ p. cc))
scan_sound false (c ∷ []) h e = ground arith
scan_sound false (c ∷ d ∷ rest) h e =
    ground (arith, scan_sound true (d ∷ rest) (λ p q. cc), scan_sound false (d ∷ rest) (λ p. cc))

scan_complete : (start : Bool) (s : Bytes) → Fits start s → scan start s ≡ ok tt
unfolding scan segments
scan_complete true [] h = refl
scan_complete false [] h = refl
scan_complete true (c ∷ rest) h = ground (arith, scan_complete false rest)
scan_complete false (c ∷ []) h = ground arith
scan_complete false (c ∷ d ∷ rest) h =
    ground (arith, scan_complete true (d ∷ rest), scan_complete false (d ∷ rest))

-- `Parse` accepts a text exactly when it is at most 100 bytes long and each of its dot-separated
-- segments is a lowercase letter followed by lowercase letters, digits, dashes and underscores;
-- what it returns is then the text itself.
pub parse-IsKey :
    (value permission : Bytes)
    → (parse value ≡ ok permission) ↔ ((permission ≡ value) × IsKey value)
unfolding parse segments
parse-IsKey [] permission = ground arith
parse-IsKey (c ∷ rest) permission = (
  λ e. ground (arith, scan_sound true (c ∷ rest) (λ p q. cc)),
  λ k. ground (arith, scan_complete true (c ∷ rest)),
)
