-- ===== src/Base/Assoc.antt =====
-- Go's maps: association lists in which the first entry of a key counts, with the laws of
-- lookup, assignment and `delete`.
use Prim.Native.Nat.{◌+◌, ◌≤◌}
use mathlib.Core.Path.{◌≡◌, refl}
use mathlib.Core.Bool.{Bool, false}
use mathlib.Core.List.{List, [], ◌∷◌}
use mathlib.Core.Option.{Option, none, some}
use native.Mathlib.Omega.{arith}
use stumpfworks_framework.Base.Tests.{holds, if◌then◌else◌}
use stumpfworks_framework.Base.Lists.{length}

module _ {ℓ κ} {K : Type ℓ} {V : Type κ} (d : Discrete K) where
  unfoldable pub lookup : K → List (K × V) → Option V
  lookup k [] = none
  lookup k ((j, v) ∷ m) = if holds (d j k) then some v else lookup k m

  -- `m[k] = v`: an entry that is there is overwritten in place, so the keys stay distinct.
  unfoldable pub insert : K → V → List (K × V) → List (K × V)
  insert k v [] = (k, v) ∷ []
  insert k v ((j, w) ∷ m) = if holds (d j k) then (k, v) ∷ m else (j, w) ∷ insert k v m

  unfoldable pub delete : K → List (K × V) → List (K × V)
  delete k [] = []
  delete k ((j, v) ∷ m) = if holds (d j k) then delete k m else (j, v) ∷ delete k m

  -- `for k, v := range m { if p(k, v) { delete(m, k) } }`
  unfoldable pub delete_if : (V → Bool) → List (K × V) → List (K × V)
  delete_if p [] = []
  delete_if p ((j, v) ∷ m) = if p v then delete_if p m else (j, v) ∷ delete_if p m

  pub lookup-insert :
      (j k : K) (v : V) (m : List (K × V))
      → lookup j (insert k v m) ≡ (if holds (d k j) then some v else lookup j m)
  unfolding lookup insert
  lookup-insert j k v [] = refl
  lookup-insert j k v ((i, w) ∷ m) = ground (arith, lookup-insert j k v m)

  pub lookup-delete :
      (j k : K) (m : List (K × V))
      → lookup j (delete k m) ≡ (if holds (d k j) then none else lookup j m)
  unfolding lookup delete
  lookup-delete j k [] = ground arith
  lookup-delete j k ((i, w) ∷ m) = ground (arith, lookup-delete j k m)

  pub length-insert-le : (k : K) (v : V) (m : List (K × V)) → length (insert k v m) ≤ length m + 1
  unfolding insert
  length-insert-le k v [] = omega arith
  length-insert-le k v ((j, w) ∷ m) = ground (arith, length-insert-le k v m)

  pub length-delete-le : (k : K) (m : List (K × V)) → length (delete k m) ≤ length m
  unfolding delete
  length-delete-le k [] = omega arith
  length-delete-le k ((j, w) ∷ m) = ground (arith, length-delete-le k m)

  pub length-delete_if-le : (p : V → Bool) (m : List (K × V)) → length (delete_if p m) ≤ length m
  unfolding delete_if
  length-delete_if-le p [] = omega arith
  length-delete_if-le p ((j, w) ∷ m) = ground (arith, length-delete_if-le p m)

  -- Deleting by value keeps what the test spares.
  pub lookup-delete_if :
      (k : K) (p : V → Bool) (m : List (K × V)) (v : V)
      → lookup k m ≡ some v
      → p v ≡ false
      → lookup k (delete_if p m) ≡ some v
  unfolding lookup delete_if
  lookup-delete_if k p [] v e h = e
  lookup-delete_if k p ((j, w) ∷ m) v e h = ground (arith, lookup-delete_if k p m v)
