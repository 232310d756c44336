-- ===== src/Ldap/Ber/Sound.antt =====
-- directory/ldap/framing.go: what the element decoder accepts is the encoding of a tree within the
-- limits on depth and nodes.
use mathlib.Core.List.{append_assoc}
use stumpfworks_framework.Base.{
  ℕ, zero, suc, ◌+◌, ◌-◌, ◌≤◌, ◌≡◌, refl, sym, ◌∙◌, ap, ◌⊎◌, inl, inr, true, false, [], ◌∷◌, ◌++◌,
  Bytes, length, take, drop, some, arith, take-append-drop, length-take, length-append, drop-append,
  Bool-cases, Option-cases,
}
use stumpfworks_framework.Ldap.Ber.{
  bit, header, Verdict, valid, invalid, exhausted, on_valid, element, children, max_depth,
  max_nodes,
}
use stumpfworks_framework.Ldap.Ber.Trees.{
  Tree, Trees, leaf, node, nil, cons, encode, encode_all, size, size_all, levels, levels_all,
  IsWellFormed, AreWellFormed, IsHeader,
}
use stumpfworks_framework.Ldap.Ber.Headers.{header_sound}

pub record IsElement (bytes : Bytes) (depth nodes end counted : ℕ) : Type 0 where
  pub tree : Tree
  pub behind : Bytes
  pub split : bytes ≡ encode tree ++ behind
  pub ends : end ≡ length (encode tree)
  pub formed : IsWellFormed tree
  pub count : counted ≡ nodes + size tree
  pub bounded : counted ≤ max_nodes
  pub deep : depth + levels tree ≤ suc max_depth

pub record IsSequence (bytes : Bytes) (depth nodes counted : ℕ) : Type 0 where
  pub trees : Trees
  pub split : bytes ≡ encode_all trees
  pub formed : AreWellFormed trees
  pub count : counted ≡ nodes + size_all trees
  pub bounded : counted ≤ max_nodes
  pub deep : depth + levels_all trees ≤ suc max_depth

-- What one call of the decoder has checked.
pub record IsStep (fuel tag : ℕ) (rest : Bytes) (depth nodes end counted : ℕ) : Type 0 where
  pub len : ℕ
  pub contents : Bytes
  pub read : header tag rest ≡ some (len, contents)
  pub shallow : depth ≤ max_depth
  pub few : nodes + 1 ≤ max_nodes
  pub ends : end ≡ suc (length rest) - length contents + len
  pub inside :
      ((bit 5 tag ≡ false) × (counted ≡ nodes + 1))
      ⊎ ((bit 5 tag ≡ true)
          × (last : ℕ) × (children fuel (take len contents) (depth + 1) (nodes + 1)
              ≡ valid last counted))

on_valid_lem :
    (v : Verdict) (k : ℕ → ℕ → Verdict) {end counted : ℕ}
    → on_valid v k ≡ valid end counted
    → (a b : ℕ) × (v ≡ valid a b) × (k a b ≡ valid end counted)
on_valid_lem (valid a b) k e = (a, b, refl, e)
on_valid_lem invalid k e = cc
on_valid_lem exhausted k e = cc

element-IsStep :
    (fuel tag : ℕ) (rest : Bytes) (depth nodes end counted : ℕ)
    → element (suc fuel) (tag ∷ rest) depth nodes ≡ valid end counted
    → IsStep fuel tag rest depth nodes end counted
unfolding element
element-IsStep fuel tag rest depth nodes end counted e = elim (Option-cases (header tag rest)) [
  | inl failed ↦ ground arith
  | inr ((len, contents), found) ↦ elim (Bool-cases (bit 5 tag)) [
    | inl holds_elements ↦
        let run = children fuel (take len contents) (depth + 1) (nodes + 1) in
        let close = λ (_ n : ℕ). valid (length (tag ∷ rest) - length contents + len) n in
        let inner : on_valid run close ≡ valid end counted = ground arith in
        let (last, n, ran, same) = on_valid_lem run close inner in
        record {
          len = len;
          contents = contents;
          read = found;
          shallow = ground arith;
          few = ground arith;
          ends = ground arith;
          inside = inr (holds_elements, last, ground arith);
        }
    | inr holds_bytes ↦ record {
      len = len;
      contents = contents;
      read = found;
      shallow = ground arith;
      few = ground arith;
      ends = ground arith;
      inside = inl (holds_bytes, ground arith);
    }
  ]
]

-- The parts of a step's bytes: the header, the contents that belong to the element, and the rest.
module _ (fuel tag : ℕ) (rest : Bytes) (depth nodes end counted : ℕ)
    (s : IsStep fuel tag rest depth nodes end counted) where
  step_head : Bytes
  step_head = (header_sound tag s.len rest s.contents s.read).0

  step_split :
      (own : Bytes)
      → take s.len s.contents ≡ own
      → tag ∷ rest ≡ (tag ∷ (step_head ++ own)) ++ drop s.len s.contents
  unfolding step_head
  step_split own same = ap (◌∷◌ tag) (
      (header_sound tag s.len rest s.contents s.read).1
      ∙ ap (◌++◌ step_head)
          (sym (take-append-drop s.len s.contents) ∙ ap (λ own. own ++ drop s.len s.contents) same)
      ∙ sym (append_assoc step_head own (drop s.len s.contents)))

  step_length : length (take s.len s.contents) ≡ s.len
  step_length =
      omega (arith, (header_sound tag s.len rest s.contents s.read).3, length-take s.len s.contents)

  step-IsHeader : IsHeader tag step_head (length (take s.len s.contents))
  unfolding step_head
  step-IsHeader = rw step_length ((header_sound tag s.len rest s.contents s.read).2)

  step_ends : (own : Bytes) → take s.len s.contents ≡ own → end ≡ suc (length (step_head ++ own))
  unfolding step_head
  step_ends own same = omega (
    arith,
    s.ends,
    ap length (header_sound tag s.len rest s.contents s.read).1,
    step_length,
    ap length same,
    length-append step_head own,
    length-append step_head s.contents,
  )

  IsElement-leaf :
      bit 5 tag ≡ false → counted ≡ nodes + 1 → IsElement (tag ∷ rest) depth nodes end counted
  unfolding encode size levels IsWellFormed
  IsElement-leaf primitive same = record {
    tree = leaf tag step_head (take s.len s.contents);
    behind = drop s.len s.contents;
    split = step_split (take s.len s.contents) refl;
    ends = step_ends (take s.len s.contents) refl;
    formed = (primitive, step-IsHeader);
    count = same;
    bounded = omega (arith, s.few);
    deep = omega (arith, s.shallow);
  }

  IsElement-node :
      bit 5 tag ≡ true
      → IsSequence (take s.len s.contents) (depth + 1) (nodes + 1) counted
      → IsElement (tag ∷ rest) depth nodes end counted
  unfolding encode size levels IsWellFormed
  IsElement-node constructed inner = record {
    tree = node tag step_head inner.trees;
    behind = drop s.len s.contents;
    split = step_split (encode_all inner.trees) inner.split;
    ends = step_ends (encode_all inner.trees) inner.split;
    formed = (constructed, (rw (← inner.split) step-IsHeader), inner.formed);
    count = omega (arith, inner.count);
    bounded = inner.bounded;
    deep = omega (arith, inner.deep);
  }

IsSequence-cons :
    (bytes : Bytes) (depth nodes consumed between counted : ℕ)
    → IsElement bytes depth nodes consumed between
    → IsSequence (drop consumed bytes) depth between counted
    → IsSequence bytes depth nodes counted
unfolding encode_all size_all levels_all AreWellFormed
IsSequence-cons bytes depth nodes consumed between counted first others = record {
  trees = cons first.tree others.trees;
  split = first.split ∙ ap (◌++◌ (encode first.tree)) (sym cut ∙ others.split);
  formed = (first.formed, others.formed);
  count = omega (arith, first.count, others.count);
  bounded = others.bounded;
  deep = omega (arith, first.deep, others.deep);
}
  where
    cut : drop consumed bytes ≡ first.behind
    cut = rw (first.split) (drop-append consumed (encode first.tree) first.behind (sym first.ends))

IsSequence-nil :
    (depth nodes counted : ℕ)
    → nodes ≤ max_nodes
    → depth ≤ suc max_depth
    → counted ≡ nodes
    → IsSequence [] depth nodes counted
unfolding encode_all size_all levels_all AreWellFormed
IsSequence-nil depth nodes counted few shallow same = record {
  trees = nil;
  split = refl;
  formed = tt;
  count = omega arith;
  bounded = omega arith;
  deep = omega arith;
}

mutual
  unfolding element children encode_all size_all levels_all AreWellFormed

  pub element_sound :
      (fuel : ℕ) (bytes : Bytes) (depth nodes end counted : ℕ)
      → element fuel bytes depth nodes ≡ valid end counted
      → IsElement bytes depth nodes end counted
  element_sound zero bytes depth nodes end counted e = cc
  element_sound (suc fuel) [] depth nodes end counted e = cc
  element_sound (suc fuel) (tag ∷ rest) depth nodes end counted e =
      let s = element-IsStep fuel tag rest depth nodes end counted e in
      elim s.inside [
        | inl (primitive, same) ↦
            IsElement-leaf fuel tag rest depth nodes end counted s primitive same
        | inr (constructed, last, ran) ↦
            IsElement-node fuel tag rest depth nodes end counted s constructed (
              children_sound fuel (take s.len s.contents) (depth + 1) (nodes + 1) last counted ran
                s.few (omega (arith, s.shallow)))
      ]

  pub children_sound :
      (fuel : ℕ) (bytes : Bytes) (depth nodes end counted : ℕ)
      → children fuel bytes depth nodes ≡ valid end counted
      → nodes ≤ max_nodes
      → depth ≤ suc max_depth
      → IsSequence bytes depth nodes counted
  children_sound zero [] depth nodes end counted e few shallow =
      IsSequence-nil depth nodes counted few shallow cc
  children_sound (suc fuel) [] depth nodes end counted e few shallow =
      IsSequence-nil depth nodes counted few shallow cc
  children_sound zero (b ∷ rest) depth nodes end counted e few shallow = cc
  children_sound (suc fuel) (b ∷ rest) depth nodes end counted e few shallow =
      let (consumed, between, ran, others) =
        on_valid_lem (element fuel (b ∷ rest) depth nodes)
          (λ consumed n. children fuel (drop consumed (b ∷ rest)) depth n) e in
      let first = element_sound fuel (b ∷ rest) depth nodes consumed between ran in
      IsSequence-cons (b ∷ rest) depth nodes consumed between counted first (
        children_sound fuel (drop consumed (b ∷ rest)) depth between end counted others
          first.bounded shallow)
