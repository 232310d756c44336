-- ===== src/Migrate/Load.antt =====
-- data/migrate/migrate.go, `Load`: the migrations in a directory. The file system and the text of a
-- SHA-256 hash are parameters; the pattern of the names and `strconv.ParseInt` are written out.
use stumpfworks_framework.Base.{
  ℕ, ◌+◌, ◌-◌, ◌*◌, ◌^◌, Bool, false, not, ◌&&◌, ◌||◌, List, [], ◌∷◌, Option, none, some, Bytes,
  any, eqb, ◌==◌, is_empty, codes, is_lower, is_digit, if◌then◌else◌, Result, ok, ◌>>=◌, ◌>>◌,
  or_fail, reject_if, ltb, sort_by,
}
use stumpfworks_framework.Migrate.{Migration}

-- An entry of the directory; `contents` is what reading the file gives.
pub record Entry : Type 0 where
  pub name : Bytes
  pub is_dir : Bool
  pub contents : Option Bytes

pub data Error : Type 0 where
  no_directory : Error
  bad_version unreadable : Bytes → Error
  duplicate : ℕ → Error

-- The longest start of a text whose bytes all pass a test, and what follows it.
unfoldable pub span : (ℕ → Bool) → Bytes → Bytes × Bytes
span p [] = ([], [])
span p (c ∷ text) =
    let (start, rest) = span p text in if p c then (c ∷ start, rest) else ([], c ∷ text)

abbrev pub is_name_start : ℕ → Bool
is_name_start c = is_lower c || is_digit c

abbrev pub is_name_char : ℕ → Bool
is_name_char c = is_lower c || is_digit c || c == b'_' || c == b'-'

-- What the pattern wants behind the digits.
abbrev pub is_tail : Bytes → Bool
is_tail [] = false
is_tail (c ∷ []) = false
is_tail (c ∷ d ∷ text) =
    c == b'_' && is_name_start d && eqb (span is_name_char text).1 (codes ".up.sql")

-- `filenamePattern.FindStringSubmatch`: the digits. No byte fits both one part of the pattern and the
-- next, so the longest match of each part is the only one.
unfoldable pub find_digits : Bytes → Option Bytes
find_digits name =
    let (digits, tail) = span is_digit name in
    if not (is_empty digits) && is_tail tail then some digits else none

abbrev pub value_of : ℕ → Bytes → ℕ
value_of n [] = n
value_of n (c ∷ digits) = value_of (n * 10 + (c - b'0')) digits

-- `strconv.ParseInt(digits, 10, 64)`, and the test of the version.
unfoldable pub version_of : Bytes → Option ℕ
version_of digits = let n = value_of 0 digits in if ltb 0 n && ltb n (2 ^ 63) then some n else none

module _ (checksum_of : Bytes → Bytes) where
  -- The migration of a file, for the digits of its name and the versions that are seen.
  unfoldable pub read_migration : List ℕ → Entry → Bytes → Result Error Migration
  read_migration seen e digits = do
    version ← or_fail (version_of digits) (bad_version e.name)
    reject_if (any (λ v. v == version) seen) (duplicate version)
    contents ← or_fail e.contents (unreadable e.name)
    ok (record {
      version = version;
      name = e.name;
      sql = contents;
      checksum = checksum_of contents;
    })

  abbrev pub digits_of : Entry → Option Bytes
  digits_of e = if e.is_dir then none else find_digits e.name

  -- The loop over the entries.
  unfoldable pub read_all : List ℕ → List Entry → Result Error (List Migration)
  read_all seen [] = ok []
  read_all seen (e ∷ more) = elim (digits_of e) [
    | none ↦ read_all seen more
    | some digits ↦ do
      m ← read_migration seen e digits
      rest ← read_all (m.version ∷ seen) more
      ok (m ∷ rest)
  ]

  abbrev pub before : Migration → Migration → Bool
  before a b = ltb a.version b.version

  -- `Load`
  unfoldable pub load : Option (List Entry) → Result Error (List Migration)
  load entries = do
    all ← or_fail entries no_directory
    migrations ← read_all [] all
    ok (sort_by before migrations)
