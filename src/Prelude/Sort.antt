-- ===== src/Prelude/Sort.antt =====
-- `slices.SortFunc` and `slices.Sort` by the comparison `cmp a b < 0`: the insertion sort that the
-- library runs on short slices. Where a theorem speaks of a sorted slice it holds of any sort.
use mathlib.Core.Bool.{Bool}
use mathlib.Core.List.{List, [], ◌∷◌}
use facetta.Prelude.Tests.{if◌then◌else◌}

module _ {ℓ} {A : Type ℓ} (less : A → A → Bool) where
  -- moves left past the elements that it comes before
  unfoldable pub insert_by : A → List A → List A
  insert_by x [] = x ∷ []
  insert_by x (y ∷ ys) = if less x y then x ∷ y ∷ ys else y ∷ insert_by x ys

  unfoldable pub sort_into : List A → List A → List A
  sort_into out [] = out
  sort_into out (x ∷ xs) = sort_into (insert_by x out) xs

  unfoldable pub sort_by : List A → List A
  unfolding sort_into insert_by
  sort_by xs = sort_into [] xs
