-- ===== src/Ldap/Ber/Complete.antt =====
-- directory/ldap/framing.go: the element decoder accepts every tree within the limits, on fuel
-- beyond the length of its encoding.
use mathlib.Core.List.{append_assoc}
use stumpfworks_framework.Base.{
  ℕ, zero, suc, ◌+◌, ◌-◌, ◌≤◌, ◌<◌, ◌≡◌, refl, ◌∙◌, ap, [], ◌∷◌, ◌++◌, Bytes, length, take, drop,
  some, arith, length-append, take-append, drop-append, if◌then◌else◌,
}
use stumpfworks_framework.Ldap.Ber.{
  bit, header, valid, on_valid, element, children, max_depth, max_nodes, max_frame_bytes,
}
use stumpfworks_framework.Ldap.Ber.Trees.{
  Tree, Trees, leaf, node, nil, cons, encode, encode_all, size, size_all, levels, levels_all,
  IsWellFormed, AreWellFormed, IsHeader, IsLength,
}
use stumpfworks_framework.Ldap.Ber.Headers.{header_complete}

pub header-nonempty : (tag n : ℕ) (head : Bytes) → IsHeader tag head n → 1 ≤ length head
header-nonempty tag n head h =
    go h.lengths h.measured (ap length h.split ∙ length-append h.identifier h.lengths)
  where
    go :
        (lengths : Bytes)
        → IsLength lengths n
        → length head ≡ length h.identifier + length lengths
        → 1 ≤ length head
    go [] m e = absurd m
    go (first ∷ more) m e = omega arith

-- One call of the decoder on a header that reads.
element_run :
    (fuel tag len : ℕ) (rest contents : Bytes) (depth nodes : ℕ)
    → header tag rest ≡ some (len, contents)
    → depth ≤ max_depth
    → nodes + 1 ≤ max_nodes
    → 1 ≤ length rest
    → element (suc fuel) (tag ∷ rest) depth nodes ≡ (
        if bit 5 tag
        then on_valid
            (children fuel (take len contents) (depth + 1) (nodes + 1))
            (λ _ counted. valid (suc (length rest) - length contents + len) counted)
        else valid (suc (length rest) - length contents + len) (nodes + 1))
unfolding element
element_run fuel tag len rest contents depth nodes read shallow few nonempty = ground arith

-- Within the limits on frames.
abbrev Fits : (bytes nodes depth : ℕ) → Type 0
Fits bytes nodes depth = (bytes ≤ max_frame_bytes) × (nodes ≤ max_nodes) × (depth ≤ suc max_depth)

module _ (fuel tag : ℕ) (head own behind : Bytes) (depth nodes : ℕ)
    (h : IsHeader tag head (length own))
    (bytes_fit : length (tag ∷ (head ++ own)) ≤ max_frame_bytes) (few : nodes + 1 ≤ max_nodes)
    (shallow : depth ≤ max_depth) where
  element_encoded : element (suc fuel) (tag ∷ ((head ++ own) ++ behind)) depth nodes ≡ (
      if bit 5 tag
      then on_valid
          (children fuel own (depth + 1) (nodes + 1))
          (λ _ counted. valid (suc (length (head ++ own))) counted)
      else valid (suc (length (head ++ own))) (nodes + 1))
  element_encoded =
      let read =
        header_complete tag (length own) head (own ++ behind) h
          (omega (arith, length-append own behind)) (omega (arith, length-append head own)) in
      let run =
        element_run fuel tag (length own) (head ++ (own ++ behind)) (own ++ behind) depth nodes read
          shallow few
          (omega
            (arith, header-nonempty tag (length own) head h, length-append head (own ++ behind))) in
      let ends : suc (length (head ++ (own ++ behind))) - length (own ++ behind) + length own
          ≡ suc (length (head ++ own)) =
        omega (
          arith,
          length-append head (own ++ behind),
          length-append own behind,
          length-append head own,
        ) in
      rw (append_assoc head own behind, run, ends, take-append (length own) own behind refl) refl

children_step :
    (fuel : ℕ) (t : Tree) (more : Bytes) (depth nodes : ℕ)
    → children (suc fuel) (encode t ++ more) depth nodes
      ≡ on_valid
          (element fuel (encode t ++ more) depth nodes)
          (λ consumed counted. children fuel (drop consumed (encode t ++ more)) depth counted)
unfolding children encode
children_step fuel (leaf tag head contents) more depth nodes = refl
children_step fuel (node tag head ts) more depth nodes = refl

pub encode-nonempty : (t : Tree) → 1 ≤ length (encode t)
unfolding encode
encode-nonempty (leaf tag head contents) = omega arith
encode-nonempty (node tag head ts) = omega arith

mutual
  unfolding children encode encode_all size size_all levels levels_all IsWellFormed AreWellFormed

  pub element_complete :
      (t : Tree) (fuel : ℕ) (behind : Bytes) (depth nodes : ℕ)
      → IsWellFormed t
      → length (encode t) < fuel
      → Fits (length (encode t)) (nodes + size t) (depth + levels t)
      → element fuel (encode t ++ behind) depth nodes ≡ valid (length (encode t)) (nodes + size t)
  element_complete (leaf tag head contents) zero behind depth nodes w enough fits =
      absurd (omega arith)
  element_complete (node tag head ts) zero behind depth nodes w enough fits = absurd (omega arith)
  element_complete (leaf tag head contents) (suc fuel) behind depth nodes (primitive, h) enough
        fits =
      rw
        (
          element_encoded fuel tag head contents behind depth nodes h fits.0 fits.1 (omega arith),
          primitive,
        )
        refl
  element_complete (node tag head ts) (suc fuel) behind depth nodes (constructed, h, w) enough
        fits =
      let inner =
        children_complete ts fuel (depth + 1) (nodes + 1) w
          (omega (arith, length-append head (encode_all ts), header-nonempty tag _ head h))
          (omega (arith, length-append head (encode_all ts)), omega arith, omega arith) in
      rw
        (
          element_encoded fuel tag head (encode_all ts) behind depth nodes h fits.0 (omega arith)
              (omega arith),
          constructed,
          inner.1,
        )
        (ap (valid (suc (length (head ++ encode_all ts)))) (omega arith))

  pub children_complete :
      (ts : Trees) (fuel : ℕ) (depth nodes : ℕ)
      → AreWellFormed ts
      → length (encode_all ts) + 1 < fuel
      → Fits (length (encode_all ts)) (nodes + size_all ts) (depth + levels_all ts)
      → (last : ℕ) × (children fuel (encode_all ts) depth nodes ≡ valid last (nodes + size_all ts))
  children_complete nil zero depth nodes w enough fits = absurd (omega arith)
  children_complete nil (suc fuel) depth nodes w enough fits = (0, ap (valid 0) (omega arith))
  children_complete (cons t ts) zero depth nodes w enough fits = absurd (omega arith)
  children_complete (cons t ts) (suc fuel) depth nodes (w, ws) enough fits =
      let total = length-append (encode t) (encode_all ts) in
      let first =
        element_complete t fuel (encode_all ts) depth nodes w (omega (arith, total))
          (omega (arith, total), omega arith, omega arith) in
      let others =
        children_complete ts fuel depth (nodes + size t) ws
          (omega (arith, total, encode-nonempty t))
          (omega (arith, total), omega arith, omega arith) in
      (
        others.0,
        rw
            (
              children_step fuel t (encode_all ts) depth nodes,
              first,
              drop-append (length (encode t)) (encode t) (encode_all ts) refl,
              others.1,
            )
            (ap (valid others.0) (omega arith)),
      )
