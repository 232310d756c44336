-- ===== src/Ids/Random.antt =====
-- core/id/id.go, `New`: an ID keeps all the random bits but those of its version and variant.
use stumpfworks_framework.Base.{
  ℕ, zero, suc, ◌+◌, ◌/◌, ◌%◌, ◌<◌, ◌≡◌, ◌↔◌, refl, sym, ap, ◌∙◌, [], ◌∷◌, ◌++◌, some, Bytes,
  length, take, drop, arith, length-take, length-drop, take-append-drop,
}
use mathlib.Core.List.{append-nil}
use stumpfworks_framework.Ids.{hex_digit, hex, stamped, format, new}
use stumpfworks_framework.Ids.Shape.{
  AreBytes, AreBytes-take, AreBytes-drop, AreBytes-stamped, length-stamped,
}

hex_digit_injective : (v w : ℕ) → v < 16 → w < 16 → hex_digit v ≡ hex_digit w → v ≡ w
unfolding hex_digit
hex_digit_injective v w h k e = ground arith

hex_cancel :
    (xs ys u v : Bytes)
    → AreBytes xs
    → AreBytes ys
    → length xs ≡ length ys
    → hex xs ++ u ≡ hex ys ++ v
    → (xs ≡ ys) × (u ≡ v)
unfolding hex
hex_cancel [] [] u v h k size e = (refl, e)
hex_cancel [] (y ∷ ys) u v h k size e = absurd (omega arith)
hex_cancel (x ∷ xs) [] u v h k size e = absurd (omega arith)
hex_cancel (x ∷ xs) (y ∷ ys) u v (h, hs) (k, ks) size e =
    let high : hex_digit (x / 16) ≡ hex_digit (y / 16) = cc in
    let low : hex_digit (x % 16) ≡ hex_digit (y % 16) = cc in
    let rest : hex xs ++ u ≡ hex ys ++ v = cc in
    let p = hex_digit_injective (x / 16) (y / 16) (omega arith) (omega arith) high in
    let q = hex_digit_injective (x % 16) (y % 16) (omega arith) (omega arith) low in
    let same : x ≡ y = omega arith in
    let (tail, after) = hex_cancel xs ys u v hs ks (omega arith) rest in
    (rw (same, tail) refl, after)

drop-drop : (m n k : ℕ) (xs : Bytes) → k ≡ m + n → drop n (drop m xs) ≡ drop k xs
drop-drop zero n k xs h = let i : n ≡ k = omega arith in rw i refl
drop-drop (suc m) zero zero xs h = absurd (omega arith)
drop-drop (suc m) (suc n) zero xs h = absurd (omega arith)
drop-drop (suc m) zero (suc k) [] h = refl
drop-drop (suc m) (suc n) (suc k) [] h = refl
drop-drop (suc m) n (suc k) (x ∷ xs) h = drop-drop m n k xs (omega arith)

-- Lists that agree up to a place and behind it.
join :
    (n m k : ℕ) (xs ys : Bytes)
    → k ≡ m + n
    → take n (drop m xs) ≡ take n (drop m ys)
    → drop k xs ≡ drop k ys
    → drop m xs ≡ drop m ys
join n m k xs ys h front back =
    sym (take-append-drop n (drop m xs))
    ∙ rw (drop-drop m n k xs h, drop-drop m n k ys h, front, back) refl
    ∙ take-append-drop n (drop m ys)

-- Lists that begin with the same dash.
cons : {c d : ℕ} {xs ys : Bytes} → c ∷ xs ≡ d ∷ ys → xs ≡ ys
cons e = cc

drop-all : (n : ℕ) (xs : Bytes) → length xs ≡ n → drop n xs ≡ []
drop-all zero [] h = refl
drop-all zero (x ∷ xs) h = absurd (omega arith)
drop-all (suc n) [] h = refl
drop-all (suc n) (x ∷ xs) h = drop-all n xs (omega arith)

module _ (v w : Bytes) (size : length v ≡ 16) (size' : length w ≡ 16) (bytes : AreBytes v)
    (bytes' : AreBytes w) where
  -- The digits of one group, and what comes after them.
  group :
      (n m : ℕ) (u u' : Bytes)
      → hex (take n (drop m v)) ++ u ≡ hex (take n (drop m w)) ++ u'
      → (take n (drop m v) ≡ take n (drop m w)) × (u ≡ u')
  group n m u u' e =
      hex_cancel (take n (drop m v)) (take n (drop m w)) u u'
        (AreBytes-take n (drop m v) (AreBytes-drop m v bytes))
        (AreBytes-take n (drop m w) (AreBytes-drop m w bytes'))
        (omega (
          arith,
          length-take n (drop m v),
          length-drop m v,
          length-take n (drop m w),
          length-drop m w,
        ))
        e

  format_injective : format v ≡ format w → v ≡ w
  unfolding format
  format_injective e =
      let (a, e1) = group 4 0 _ _ e in
      let (b, e2) = group 2 4 _ _ (cons e1) in
      let (c, e3) = group 2 6 _ _ (cons e2) in
      let (d, e4) = group 2 8 _ _ (cons e3) in
      let (f, _) = group 6 10 [] [] (append-nil _ ∙ cons e4 ∙ sym (append-nil _)) in
      let ends = drop-all 16 v size ∙ sym (drop-all 16 w size') in
      join 4 0 4 v w refl a (
        join 2 4 6 v w refl b
          (join 2 6 8 v w refl c (join 2 8 10 v w refl d (join 6 10 16 v w refl f ends))))

-- Two draws give the same ID exactly if they agree in all bits but the four of the version and the two
-- of the variant.
new_injective :
    (a b : Bytes)
    → length a ≡ 16
    → length b ≡ 16
    → AreBytes a
    → AreBytes b
    → (new (some a) ≡ new (some b)) ↔ (stamped a ≡ stamped b)
unfolding new
new_injective a b size size' bytes bytes' = (
  λ e.
      format_injective (stamped a) (stamped b) (length-stamped a ∙ size) (length-stamped b ∙ size')
        (AreBytes-stamped a bytes) (AreBytes-stamped b bytes') cc,
  λ e. ap (λ v. some (format v)) e,
)
