-- ===== src/Migrate/Tests.antt =====
-- data/migrate: two migrations, the first of which is applied already. SQL adds its length to a
-- number here.
use stumpfworks_framework.Base.{
  ℕ, ◌+◌, ◌≡◌, sort_by, insert_sorted, refl, arith, Bool, true, false, All, List, [], ◌∷◌, Option,
  some, Bytes, Bytes-discrete, codes, length, ok, err, lookup, insert, ℕ_discrete,
}
use stumpfworks_framework.Migrate.{
  Migration, Database, Faults, checksum_changed, apply_one, apply_all, apply,
}
use stumpfworks_framework.Migrate.Applied.{AreDistinct, IsApplied}
use stumpfworks_framework.Migrate.Load.{
  Entry, span, find_digits, version_of, read_migration, read_all, load, duplicate,
}
use stumpfworks_framework.Migrate.Ordered.{apply-load}

abbrev first : Migration
first = record { version = 1; name = codes "1_a.up.sql"; sql = codes "a"; checksum = codes "ca" }

abbrev second : Migration
second = record { version = 2; name = codes "2_b.up.sql"; sql = codes "bb"; checksum = codes "cb" }

abbrev both : List Migration
both = first ∷ second ∷ []

abbrev execute : Bytes → ℕ → Option ℕ
execute sql n = some (n + length sql)

abbrev records : ℕ → Bool
records v = true

abbrev faultless : Faults
faultless = record { begins = true; locks = true; creates = true; reads = true; commits = true }

abbrev half : Database ℕ
half = record { schema = 1; applied = (1, codes "ca") ∷ [] }

abbrev full : Database ℕ
full = record { schema = 3; applied = (1, codes "ca") ∷ (2, codes "cb") ∷ [] }

abbrev changed : Database ℕ
changed = record { schema = 1; applied = (1, codes "xx") ∷ [] }

code : Unit {0}
unfolding apply apply_all apply_one lookup insert Bytes-discrete ℕ_discrete
code = tt

applies : apply execute records true faultless both half ≡ (ok tt, full)
unfolding code
applies = refl

stops : apply execute records true faultless both changed ≡ (err (checksum_changed 1), changed)
unfolding code
stops = refl

succeeds : (apply execute records true faultless both half).0 ≡ ok tt
unfolding code
succeeds = refl

distinct : AreDistinct both
distinct = ((omega arith, tt), (tt, tt))

abbrev file : Bytes → Bytes → Entry
file name sql = record { name = name; is_dir = false; contents = some sql }

abbrev hash : Bytes → Bytes
hash sql = b'c' ∷ sql

-- In the order of their names, with a file that the pattern leaves out.
abbrev files : List Entry
files =
    file (codes "02_b.up.sql") (codes "bb")
    ∷ file (codes "1_a.up.sql") (codes "a")
    ∷ file (codes "1_a.down.sql") []
    ∷ []

abbrev found : List Migration
found =
    record { version = 1; name = codes "1_a.up.sql"; sql = codes "a"; checksum = codes "ca" }
    ∷ record { version = 2; name = codes "02_b.up.sql"; sql = codes "bb"; checksum = codes "cbb" }
    ∷ []

loading : Unit {0}
unfolding load read_all read_migration version_of find_digits span sort_by insert_sorted
    Bytes-discrete
loading = tt

loads : load hash (some files) ≡ ok found
unfolding loading
loads = refl

refuses_twice :
    load hash (some (file (codes "1_a.up.sql") [] ∷ file (codes "01_b.up.sql") [] ∷ []))
    ≡ err (duplicate 1)
unfolding loading
refuses_twice = refl

applies_found : (apply execute records true faultless found half).0 ≡ ok tt
unfolding code
applies_found = refl

apply-load_example :
    let after = (apply execute records true faultless found half).1 in
    All (IsApplied after.applied) found
    × (apply execute records true faultless found after ≡ (ok tt, after))
apply-load_example =
    apply-load hash execute records files found true faultless half loads applies_found
