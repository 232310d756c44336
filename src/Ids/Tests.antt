-- ===== src/Ids/Tests.antt =====
-- core/id/id_test.go: the ID of bytes that count up.
use stumpfworks_framework.Base.{◌≡◌, refl, true, [], ◌∷◌, none, some, Bytes, codes, arith}
use stumpfworks_framework.Web.Middleware.{valid_request_id}
use stumpfworks_framework.Ids.{hex_digit, hex, update, format, new}
use stumpfworks_framework.Ids.Shape.{IsUuid}
use stumpfworks_framework.Ids.Accepted.{new-IsUuid}

abbrev counting : Bytes
counting =
    0 ∷ 17 ∷ 34 ∷ 51 ∷ 68 ∷ 85 ∷ 102 ∷ 119 ∷ 255 ∷ 153 ∷ 170 ∷ 187 ∷ 204 ∷ 221 ∷ 238 ∷ 255 ∷ []

code : Unit {0}
unfolding hex_digit hex update format new
code = tt

formats : new (some counting) ≡ some (codes "00112233-4455-4677-bf99-aabbccddeeff")
unfolding code
formats = refl

fails : new none ≡ none
unfolding code
fails = refl

new-IsUuid_example :
    (text : Bytes) × (new (some counting) ≡ some text)
    × IsUuid text
    × (valid_request_id text ≡ true)
new-IsUuid_example = new-IsUuid counting refl (omega arith)

-- Another version in the drawn bytes makes no difference.
abbrev other_version : Bytes
other_version =
    0 ∷ 17 ∷ 34 ∷ 51 ∷ 68 ∷ 85 ∷ 22 ∷ 119 ∷ 255 ∷ 153 ∷ 170 ∷ 187 ∷ 204 ∷ 221 ∷ 238 ∷ 255 ∷ []
