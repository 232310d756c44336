-- ===== src/Ldap/Ber/Fuel.antt =====
-- directory/ldap/framing.go: fuel beyond the length of the bytes is never used up, so the recursion
-- of the decoder ends.
use stumpfworks_framework.Base.{
  ℕ, zero, suc, ◌+◌, ◌≤◌, ◌<◌, ◌≡◌, refl, ap, ◌≢◌, inl, inr, [], ◌∷◌, Bytes, length, take, drop,
  some, arith, length-append, length-take, length-drop, Option-cases,
}
use stumpfworks_framework.Ldap.Ber.{
  header, Verdict, valid, invalid, exhausted, on_valid, element, children,
}
use stumpfworks_framework.Ldap.Ber.Headers.{header_sound}
use stumpfworks_framework.Ldap.Ber.Sound.{element_sound}
use stumpfworks_framework.Ldap.Ber.Complete.{encode-nonempty, header-nonempty}

header_shrinks :
    (tag len : ℕ) (rest contents : Bytes)
    → header tag rest ≡ some (len, contents)
    → length contents < length rest
header_shrinks tag len rest contents e =
    let (head, split, h, fits) = header_sound tag len rest contents e in
    omega (arith, ap length split, length-append head contents, header-nonempty tag len head h)

element_advances :
    (fuel : ℕ) (bytes : Bytes) (depth nodes end counted : ℕ)
    → element fuel bytes depth nodes ≡ valid end counted
    → 1 ≤ end
element_advances fuel bytes depth nodes end counted e =
    let r = element_sound fuel bytes depth nodes end counted e in
    omega (arith, r.ends, encode-nonempty r.tree)

on_valid_total :
    (v : Verdict) (k : ℕ → ℕ → Verdict)
    → v ≢ exhausted
    → ((a b : ℕ) → v ≡ valid a b → k a b ≢ exhausted)
    → on_valid v k ≢ exhausted
on_valid_total (valid a b) k p q e = q a b refl e
on_valid_total invalid k p q e = cc
on_valid_total exhausted k p q e = p refl

element_stuck :
    (fuel tag : ℕ) (rest : Bytes) (depth nodes : ℕ)
    → element (suc fuel) (tag ∷ rest) depth nodes ≡ exhausted
    → (len : ℕ) × (contents : Bytes) × (header tag rest ≡ some (len, contents))
      × (children fuel (take len contents) (depth + 1) (nodes + 1) ≡ exhausted)
unfolding element
element_stuck fuel tag rest depth nodes e = elim (Option-cases (header tag rest)) [
  | inl failed ↦ ground arith
  | inr ((len, contents), found) ↦ (len, contents, found, ground arith)
]

mutual
  unfolding element children

  element_total :
      (fuel : ℕ) (bytes : Bytes) (depth nodes : ℕ)
      → length bytes < fuel
      → element fuel bytes depth nodes ≢ exhausted
  element_total zero bytes depth nodes h e = absurd (omega arith)
  element_total (suc fuel) [] depth nodes h e = cc
  element_total (suc fuel) (tag ∷ rest) depth nodes h e =
      let (len, contents, read, stuck) = element_stuck fuel tag rest depth nodes e in
      children_total fuel (take len contents) (depth + 1) (nodes + 1)
        (omega (arith, length-take len contents, header_shrinks tag len rest contents read)) stuck

  children_total :
      (fuel : ℕ) (bytes : Bytes) (depth nodes : ℕ)
      → length bytes + 1 < fuel
      → children fuel bytes depth nodes ≢ exhausted
  children_total zero bytes depth nodes h e = absurd (omega arith)
  children_total (suc fuel) [] depth nodes h e = cc
  children_total (suc fuel) (b ∷ rest) depth nodes h e =
      on_valid_total (element fuel (b ∷ rest) depth nodes)
        (λ consumed counted. children fuel (drop consumed (b ∷ rest)) depth counted)
        (element_total fuel (b ∷ rest) depth nodes (omega arith))
        (λ a c ran. children_total fuel (drop a (b ∷ rest)) depth c (
          omega (
            arith,
            length-drop a (b ∷ rest),
            element_advances fuel (b ∷ rest) depth nodes a c ran,
          )))
        e

-- On fuel beyond the number of bytes the element decoder comes to a verdict, whatever the bytes, the
-- depth and the count of nodes.
pub element_terminates :
    (bytes : Bytes) (fuel depth nodes : ℕ)
    → length bytes < fuel
    → element fuel bytes depth nodes ≢ exhausted
element_terminates bytes fuel depth nodes h = element_total fuel bytes depth nodes h
