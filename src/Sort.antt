-- ===== src/Sort.antt =====
-- sort.Slice by a `less` function. Where no two items are equivalent, as at distinct identifiers,
-- every sorting algorithm gives this list.
pub mod Order
use rootforge.Prelude.{Bool, true, false, List, [], ◌∷◌, if◌then◌else◌}

module _ {ℓ} {A : Type ℓ} (less : A → A → Bool) where
  unfoldable pub insert_by : A → List A → List A
  insert_by x [] = x ∷ []
  insert_by x (y ∷ ys) = if less x y then x ∷ y ∷ ys else y ∷ insert_by x ys

  unfoldable pub sort_by : List A → List A
  unfolding insert_by
  sort_by [] = []
  sort_by (x ∷ xs) = insert_by x (sort_by xs)
