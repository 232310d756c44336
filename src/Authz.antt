-- ===== src/Authz.antt =====
-- authz/permissions.go: permission keys and exact, bounded permission sets. A Go map with empty
-- struct values is an association list of units.
pub mod Grammar
pub mod Sets
pub mod Tests
use stumpfworks_framework.Base.{
  ℕ, Bool, true, false, not, ◌&&◌, ◌||◌, List, [], ◌∷◌, Option, none, some, Bytes, Bytes-discrete,
  ltb, ◌==◌, if◌then◌else◌, is_lower, is_digit, length, lookup, insert, Result, ok, err, ◌>>=◌,
  ◌>>◌, reject_if,
}

abbrev pub max_key_bytes : ℕ
max_key_bytes = 100

abbrev pub max_permission : ℕ
max_permission = 256

pub data Error : Type 0 where
  bad_length empty_segment bad_start bad_character too_many : Error

abbrev pub is_key_char : ℕ → Bool
is_key_char c = is_lower c || is_digit c || c == b'-' || c == b'_'

abbrev is_last : List ℕ → Bool
is_last [] = true
is_last (_ ∷ _) = false

-- The loop of `Parse`; the flag is `segmentStart`, and `i == len(value)-1` says that no byte is left.
scan : Bool → Bytes → Result Error (Unit {0})
scan start [] = ok tt
scan start (c ∷ rest) =
    let next_segment = scan true rest in
    let same_segment = scan false rest in
    if c == b'.'
    then (if start || is_last rest then err empty_segment else next_segment)
    else if start && not (is_lower c)
    then err bad_start
    else if not (is_key_char c)
    then err bad_character
    else same_segment

unfoldable pub parse : Bytes → Result Error Bytes
unfolding scan
parse value = do
  reject_if (length value == 0 || ltb max_key_bytes (length value)) bad_length
  scan true value
  ok value

pub record Set : Type 0 where
  pub values : List (Bytes × Unit {0})

-- The loop of `New`.
add_all : List (Bytes × Unit {0}) → List Bytes → Result Error Set
add_all m [] = ok (record { values = m })
add_all m (value ∷ more) = do
  permission ← parse value
  add_all (insert Bytes-discrete permission tt m) more

unfoldable pub new : List Bytes → Result Error Set
unfolding add_all parse insert
new values = do reject_if (ltb max_permission (length values)) too_many; add_all [] values

abbrev is_some {ℓ} : {A : Type ℓ} → Option A → Bool
is_some none = false
is_some (some a) = true

unfoldable pub has : Set → Bytes → Bool
unfolding lookup
has s permission = is_some (lookup Bytes-discrete permission s.values)

unfoldable pub has_all : Set → List Bytes → Bool
unfolding has
has_all s [] = true
has_all s (permission ∷ more) =
    let rest = has_all s more in if not (has s permission) then false else rest

unfoldable pub has_any : Set → List Bytes → Bool
unfolding has
has_any s [] = false
has_any s (permission ∷ more) = let rest = has_any s more in if has s permission then true else rest

unfoldable pub len : Set → ℕ
len s = length s.values
