-- ===== src/Oidc/Base64/RoundTrip.antt =====
-- Encoding and decoding: what is encoded is decoded again, and `decodeBinding` accepts exactly the
-- encodings of 32 bytes.
use stumpfworks_framework.Base.{
  ℕ, ◌+◌, ◌*◌, ◌/◌, ◌%◌, ◌<◌, ◌≤◌, ◌≡◌, refl, ap, ◌↔◌, inl, inr, List, [], ◌∷◌, some, Bytes, length,
  All, arith, Option-cases,
}
use stumpfworks_framework.Base.Optional.{bind-eq-some}
use stumpfworks_framework.Oidc.Base64.{
  character, sextet, encode, strip, sextets, group, decode, decode_binding, random_url_string,
}

abbrev pub IsByte : ℕ → Type 0
IsByte b = b < 256

abbrev pub AreBytes : Bytes → Type 0
AreBytes = All IsByte

sextet-character : (v : ℕ) → v < 64 → sextet (character v) ≡ some v
unfolding sextet character
sextet-character v h = ground arith

strip-character :
    (v : ℕ) (rest : Bytes) → v < 64 → strip (character v ∷ rest) ≡ character v ∷ strip rest
unfolding strip character
strip-character v rest h = ground arith

length-encode-three :
    (a b c : ℕ) (rest : Bytes) → length (encode (a ∷ b ∷ c ∷ rest)) ≡ 4 + length (encode rest)
unfolding encode
length-encode-three a b c rest = omega arith

sextets-character :
    (v : ℕ) (rest : Bytes) (vs : List ℕ)
    → v < 64
    → sextets (strip rest) ≡ some vs
    → sextets (strip (character v ∷ rest)) ≡ some (v ∷ vs)
unfolding sextets
sextets-character v rest vs h e =
    rw (strip-character v rest h, sextets, sextet-character v h, e) refl

-- The groups of six bits.
values : Bytes → List ℕ
values [] = []
values (a ∷ []) = a / 4 ∷ (a % 4 * 16) ∷ []
values (a ∷ b ∷ []) = a / 4 ∷ (a % 4 * 16 + b / 16) ∷ (b % 16 * 4) ∷ []
values (a ∷ b ∷ c ∷ rest) =
    a / 4 ∷ (a % 4 * 16 + b / 16) ∷ (b % 16 * 4 + c / 64) ∷ c % 64 ∷ values rest

sextets-encode :
    (bytes : Bytes) → AreBytes bytes → sextets (strip (encode bytes)) ≡ some (values bytes)
unfolding encode values
sextets-encode [] h = unfold strip sextets in refl
sextets-encode (a ∷ []) h =
    sextets-character _ _ _ (omega arith)
      (sextets-character _ [] [] (omega arith) (unfold strip sextets in refl))
sextets-encode (a ∷ b ∷ []) h = sextets-character _ _ _ (omega arith) (
    sextets-character _ _ _ (omega arith)
      (sextets-character _ [] [] (omega arith) (unfold strip sextets in refl)))
sextets-encode (a ∷ b ∷ c ∷ rest) h = sextets-character _ _ _ (omega arith) (
    sextets-character _ _ _ (omega arith) (
      sextets-character _ _ _ (omega arith)
        (sextets-character _ _ _ (omega arith) (sextets-encode rest h.1.1.1))))

-- The three bytes of a group from its sextets; a missing byte counts as 0.
first_byte : (a b : ℕ) → b < 256 → a / 4 * 4 + (a % 4 * 16 + b / 16) / 16 ≡ a
first_byte a b h = omega arith

second_byte :
    (a b c : ℕ)
    → b < 256
    → c < 256
    → (a % 4 * 16 + b / 16) % 16 * 16 + (b % 16 * 4 + c / 64) / 4 ≡ b
second_byte a b c h k = omega arith

third_byte : (b c : ℕ) → c < 256 → (b % 16 * 4 + c / 64) % 4 * 64 + c % 64 ≡ c
third_byte b c h = omega arith

last_byte : (a : ℕ) → a / 4 * 4 + a % 4 * 16 / 16 ≡ a
last_byte a = omega arith

last_second : (a b : ℕ) → b < 256 → (a % 4 * 16 + b / 16) % 16 * 16 + b % 16 * 4 / 4 ≡ b
last_second a b h = omega arith

group-values : (bytes : Bytes) → AreBytes bytes → group (values bytes) ≡ some bytes
unfolding group values
group-values [] h = refl
group-values (a ∷ []) h = rw (last_byte a)
group-values (a ∷ b ∷ []) h = rw (first_byte a b h.1.0, last_second a b h.1.0)
group-values (a ∷ b ∷ c ∷ rest) h = rw (
  group-values rest h.1.1.1,
  first_byte a b h.1.0,
  second_byte a b c h.1.0 h.1.1.0,
  third_byte b c h.1.1.0,
)

-- What is encoded is decoded again.
decode-encode : (bytes : Bytes) → AreBytes bytes → decode (encode bytes) ≡ some bytes
unfolding decode
decode-encode bytes h = rw (sextets-encode bytes h) (group-values bytes h)

sextet_lt : (c v : ℕ) → sextet c ≡ some v → v < 64
unfolding sextet
sextet_lt c v e = ground arith

sextets_lt : (text : Bytes) (vs : List ℕ) → sextets text ≡ some vs → All (λ v. v < 64) vs
unfolding sextets
sextets_lt text [] e = tt
sextets_lt [] (v ∷ vs) e = cc
sextets_lt (c ∷ rest) (v ∷ vs) e = (sextet_lt c v (ground arith), sextets_lt rest vs (ground arith))

group-AreBytes :
    (vs : List ℕ) (bytes : Bytes) → All (λ v. v < 64) vs → group vs ≡ some bytes → AreBytes bytes
unfolding group
group-AreBytes [] bytes h e = ground arith
group-AreBytes (p ∷ []) bytes h e = cc
group-AreBytes (p ∷ q ∷ []) bytes h e = ground arith
group-AreBytes (p ∷ q ∷ r ∷ []) bytes h e = ground arith
group-AreBytes (p ∷ q ∷ r ∷ s ∷ rest) bytes h e =
    let (more, others, same) = bind-eq-some (group rest) _ e in
    let tail = group-AreBytes rest more h.1.1.1.1 others in ground arith

decode-AreBytes : (text bytes : Bytes) → decode text ≡ some bytes → AreBytes bytes
unfolding decode
decode-AreBytes text bytes e =
    let (vs, read, grouped) = bind-eq-some (sextets (strip text)) _ e in
    group-AreBytes vs bytes (sextets_lt (strip text) vs read) grouped

length-encode_lem : (bytes : Bytes) → length (encode bytes) * 3 ≤ length bytes * 4 + 2
unfolding encode
length-encode_lem [] = omega arith
length-encode_lem (a ∷ []) = omega arith
length-encode_lem (a ∷ b ∷ []) = omega arith
length-encode_lem (a ∷ b ∷ c ∷ rest) = omega (arith, length-encode_lem rest)

length-encode_ge : (bytes : Bytes) → length bytes * 4 ≤ length (encode bytes) * 3
unfolding encode
length-encode_ge [] = omega arith
length-encode_ge (a ∷ []) = omega arith
length-encode_ge (a ∷ b ∷ []) = omega arith
length-encode_ge (a ∷ b ∷ c ∷ rest) = omega (arith, length-encode_ge rest)

-- `decodeBinding` accepts a text exactly if it is the encoding of 32 bytes, and returns these: each
-- secret has one accepted text.
decode_binding_iff :
    (binding decoded : Bytes)
    → (decode_binding binding ≡ some decoded)
      ↔ ((length decoded ≡ 32) × AreBytes decoded × (encode decoded ≡ binding))
unfolding decode_binding
decode_binding_iff binding decoded = (
  λ e. elim (Option-cases (decode binding)) [
    | inl failed ↦ ground arith
    | inr (bytes, found) ↦ (
      ground arith,
      rw (← same bytes found e) (decode-AreBytes binding bytes found),
      ground arith,
    )
  ],
  λ h. ground (
    arith,
    length-encode_lem decoded,
    length-encode_ge decoded,
    decode-encode decoded h.1,
    ap decode h.2,
    ap length h.2,
  ),
)
  where
    same :
        (bytes : Bytes)
        → decode binding ≡ some bytes
        → decode_binding binding ≡ some decoded
        → bytes ≡ decoded
    same bytes found e = ground arith

-- What `randomURLString` returns is accepted, and stands for the 32 bytes that were drawn.
pub random_url_string_accepted :
    (bytes text : Bytes)
    → length bytes ≡ 32
    → AreBytes bytes
    → random_url_string (some bytes) ≡ some text
    → (decode_binding text ≡ some bytes) × (length text ≡ 43)
unfolding random_url_string
random_url_string_accepted bytes text size h e =
    let same : encode bytes ≡ text = ground arith in
    (
      (decode_binding_iff text bytes).1 (size, h, same),
      omega (arith, length-encode_lem bytes, length-encode_ge bytes, ap length same),
    )
