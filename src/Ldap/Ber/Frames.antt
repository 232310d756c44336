-- ===== src/Ldap/Ber/Frames.antt =====
-- directory/ldap/framing.go: the frames that `validateBERFrame` accepts.
use stumpfworks_framework.Base.{
  ℕ, suc, ◌+◌, ◌≤◌, ◌≡◌, refl, sym, ◌∙◌, ap, ◌↔◌, true, [], ◌∷◌, ◌++◌, Bytes, length, arith,
  length-append,
}
use mathlib.Core.List.{append-nil}
use stumpfworks_framework.Ldap.Ber.{
  Verdict, valid, invalid, exhausted, covers, element, validate_ber_frame, max_depth, max_nodes,
  max_frame_bytes,
}
use stumpfworks_framework.Ldap.Ber.Trees.{
  Tree, leaf, node, encode, encode_all, size, levels, IsWellFormed, root_tag,
}
use stumpfworks_framework.Ldap.Ber.Sound.{element_sound}
use stumpfworks_framework.Ldap.Ber.Complete.{element_complete, header-nonempty}

pub record IsFrame (frame : Bytes) : Type 0 where
  pub tree : Tree
  pub encoded : frame ≡ encode tree
  pub formed : IsWellFormed tree
  pub sequence : root_tag tree ≡ 0x30
  pub small : length frame ≤ max_frame_bytes
  pub few : size tree ≤ max_nodes
  pub shallow : levels tree ≤ suc max_depth

covers_lem : (n : ℕ) (v : Verdict) → covers n v ≡ true → (counted : ℕ) × (v ≡ valid n counted)
covers_lem n (valid end counted) h = (counted, ground arith)
covers_lem n invalid h = cc
covers_lem n exhausted h = cc

frame_verdict :
    (tag : ℕ) (rest : Bytes)
    → validate_ber_frame (tag ∷ rest) ≡ true
    → (tag ≡ 0x30)
      × (length (tag ∷ rest) ≤ max_frame_bytes)
      × (counted : ℕ) × (element (length (tag ∷ rest) + 2) (tag ∷ rest) 0 0
          ≡ valid (length (tag ∷ rest)) counted)
unfolding validate_ber_frame
frame_verdict tag rest e =
    let verdict = element (length (tag ∷ rest) + 2) (tag ∷ rest) 0 0 in
    let (counted, same) = covers_lem (length (tag ∷ rest)) verdict (ground arith) in
    (ground arith, ground arith, counted, same)

root_tag-encode :
    (t : Tree) (tag : ℕ) (rest behind : Bytes) → tag ∷ rest ≡ encode t ++ behind → root_tag t ≡ tag
unfolding encode
root_tag-encode (leaf tag' head contents) tag rest behind e = cc
root_tag-encode (node tag' head ts) tag rest behind e = cc

nil_of_length : (xs ys : Bytes) → length (xs ++ ys) ≡ length xs → ys ≡ []
nil_of_length xs [] e = refl
nil_of_length xs (y ∷ ys) e = absurd (omega (arith, length-append xs (y ∷ ys)))

IsFrame-sound : (frame : Bytes) → validate_ber_frame frame ≡ true → IsFrame frame
unfolding validate_ber_frame
IsFrame-sound [] e = cc
IsFrame-sound (tag ∷ rest) e =
    let (sequence, small, counted, ran) = frame_verdict tag rest e in
    let r = element_sound (length (tag ∷ rest) + 2) (tag ∷ rest) 0 0 _ counted ran in
    let done = nil_of_length (encode r.tree) r.behind (ap length (sym r.split) ∙ r.ends) in
    record {
      tree = r.tree;
      encoded = r.split ∙ ap (◌++◌ (encode r.tree)) done ∙ append-nil (encode r.tree);
      formed = r.formed;
      sequence = root_tag-encode r.tree tag rest r.behind r.split ∙ sequence;
      small = small;
      few = omega (arith, r.count, r.bounded);
      shallow = omega (arith, r.deep);
    }

frame_accepted :
    (tag counted : ℕ) (rest : Bytes)
    → tag ≡ 0x30
    → 1 ≤ length rest
    → length (tag ∷ rest) ≤ max_frame_bytes
    → element (length (tag ∷ rest) + 2) (tag ∷ rest) 0 0 ≡ valid (length (tag ∷ rest)) counted
    → validate_ber_frame (tag ∷ rest) ≡ true
unfolding validate_ber_frame
frame_accepted tag counted rest sequence nonempty small ran = ground arith

abbrev Accepts : Tree → Type 0
Accepts t =
    root_tag t ≡ 0x30
    → length (encode t) ≤ max_frame_bytes
    → element (length (encode t) + 2) (encode t) 0 0 ≡ valid (length (encode t)) (size t)
    → validate_ber_frame (encode t) ≡ true

encoding_accepted : (t : Tree) → IsWellFormed t → Accepts t
unfolding encode IsWellFormed
encoding_accepted (leaf tag head contents) (b, h) sequence =
    frame_accepted tag _ (head ++ contents) sequence
      (omega (arith, header-nonempty tag _ head h, length-append head contents))
encoding_accepted (node tag head ts) (b, h, w) sequence =
    frame_accepted tag _ (head ++ encode_all ts) sequence
      (omega (arith, header-nonempty tag _ head h, length-append head (encode_all ts)))

tree_accepted :
    (t : Tree)
    → IsWellFormed t
    → root_tag t ≡ 0x30
    → length (encode t) ≤ max_frame_bytes
    → size t ≤ max_nodes
    → levels t ≤ suc max_depth
    → validate_ber_frame (encode t) ≡ true
tree_accepted t w sequence small few shallow =
    let ran =
      element_complete t (length (encode t) + 2) [] 0 0 w (omega arith)
        (small, omega arith, omega arith) in
    encoding_accepted t w sequence small
      ((rw append-nil at ran) ∙ ap (valid (length (encode t))) (omega arith))

-- `validateBERFrame` accepts exactly the frames that encode a tree of definite-length BER elements,
-- each header giving the exact length of what it holds, under a root with tag 0x30, of at most 2^20
-- bytes, 4096 elements and 33 levels.
pub validate_ber_frame_iff : (frame : Bytes) → (validate_ber_frame frame ≡ true) ↔ IsFrame frame
validate_ber_frame_iff frame = (
  IsFrame-sound frame,
  λ f.
      rw f.encoded
        (tree_accepted f.tree f.formed f.sequence (rw (← f.encoded) f.small) f.few f.shallow),
)
