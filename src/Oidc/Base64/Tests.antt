-- ===== src/Oidc/Base64/Tests.antt =====
-- auth/oidc: the text of 32 bytes, encoded and decoded.
use stumpfworks_framework.Base.{
  ℕ, zero, suc, ◌≡◌, refl, [], ◌∷◌, some, none, Bytes, length, arith, codes,
}
use stumpfworks_framework.Oidc.Base64.{
  encode, decode, strip, sextets, sextet, group, character, decode_binding, random_url_string,
}
use stumpfworks_framework.Oidc.Base64.RoundTrip.{AreBytes}

abbrev bytes_of : ℕ → Bytes
bytes_of zero = []
bytes_of (suc n) = 200 ∷ bytes_of n

code : Unit {0}
unfolding encode decode strip sextets sextet group character decode_binding random_url_string
code = tt

encodes : encode (codes "Hello") ≡ codes "SGVsbG8"
unfolding code
encodes = refl

refuses_padding : decode (codes "SGVsbG8=") ≡ none
unfolding code
refuses_padding = refl

bytes_of-AreBytes : (n : ℕ) → AreBytes (bytes_of n)
bytes_of-AreBytes zero = tt
bytes_of-AreBytes (suc n) = (omega arith, bytes_of-AreBytes n)

length-bytes_of : length (bytes_of 32) ≡ 32
length-bytes_of = refl

drawn : random_url_string (some (bytes_of 32)) ≡ some (encode (bytes_of 32))
unfolding random_url_string
drawn = refl
