-- ===== src/Base/Sort.antt =====
-- `sort.Slice` and `sort.Strings`: an ascending list of the same items. Where no two items are alike
-- there is only one, so this one stands for what the library returns.
use mathlib.Core.Bool.{Bool, true, false, ◌&&◌, ◌||◌}
use mathlib.Core.List.{List, [], ◌∷◌}
use stumpfworks_framework.Base.Tests.{ltb, ◌==◌, if◌then◌else◌}
use stumpfworks_framework.Base.Text.{Bytes}

-- `a < b` on strings.
unfoldable pub text_lt : Bytes → Bytes → Bool
text_lt a [] = false
text_lt [] (d ∷ b) = true
text_lt (c ∷ a) (d ∷ b) = let rest = text_lt a b in ltb c d || (c == d && rest)

module _ {ℓ} {A : Type ℓ} (less : A → A → Bool) where
  -- In front of the first item that is greater.
  unfoldable pub insert_sorted : A → List A → List A
  insert_sorted a [] = a ∷ []
  insert_sorted a (b ∷ more) =
      let rest = insert_sorted a more in if less a b then a ∷ b ∷ more else b ∷ rest

  unfoldable pub sort_by : List A → List A
  unfolding insert_sorted
  sort_by [] = []
  sort_by (a ∷ more) = insert_sorted a (sort_by more)
