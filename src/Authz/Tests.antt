-- ===== src/Authz/Tests.antt =====
-- authz/permissions_test.go: runs of the model, and the theorems at concrete inputs.
use stumpfworks_framework.Base.{
  ◌≡◌, refl, ◌↔◌, List, [], ◌∷◌, Bytes, Bytes-discrete, codes, ok, err,
}
use stumpfworks_framework.Authz.{Set, parse, new, empty_segment, bad_start}
use stumpfworks_framework.Authz.Grammar.{IsKey, parse-IsKey}

abbrev device_read : Bytes
device_read = codes "device.read"

abbrev listed : List Bytes
listed = device_read ∷ codes "audit.write" ∷ device_read ∷ []

abbrev stored : Set
stored = record { values = (device_read, tt) ∷ (codes "audit.write", tt) ∷ [] }

parse_tests :
    (parse (codes "users..read") ≡ err empty_segment)
    × (parse (codes "users.") ≡ err empty_segment)
    × (parse (codes "users.9") ≡ err bad_start)
unfolding parse
parse_tests = (refl, refl, refl)

new-listed : new listed ≡ ok stored
unfolding new Bytes-discrete
new-listed = refl

parse-IsKey_example :
    (parse device_read ≡ ok device_read) ↔ ((device_read ≡ device_read) × IsKey device_read)
parse-IsKey_example = parse-IsKey device_read device_read
