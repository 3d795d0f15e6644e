-- ===== src/Dict.antt =====
-- Go maps with string keys, as association lists: a lookup, a write, delete, and the loop that
-- copies a map key by key. The order of the list is the order in which `range` happens to visit.
pub mod Laws
pub mod Copy
pub mod Keyed
use rootforge.Prelude.{
  ℕ, ◌≡◌, Bool, true, false, ◌&&◌, Option, none, some, List, [], ◌∷◌, if◌then◌else◌, length, ◌==◌,
}
use rootforge.Text.{Text, text_eq}

abbrev pub Dict {ℓ} : Type ℓ → Type ℓ
Dict V = List (Text × V)

module _ {ℓ} {V : Type ℓ} where
  unfoldable pub lookup : Text → Dict V → Option V
  lookup k [] = none
  lookup k ((j, v) ∷ m) = if text_eq j k then some v else lookup k m

  unfoldable pub insert : Text → V → Dict V → Dict V
  insert k v [] = (k, v) ∷ []
  insert k v ((j, w) ∷ m) = if text_eq j k then (j, v) ∷ m else (j, w) ∷ insert k v m

  unfoldable pub delete : Text → Dict V → Dict V
  delete k [] = []
  delete k ((j, v) ∷ m) = let rest = delete k m in if text_eq j k then rest else (j, v) ∷ rest

  unfoldable pub values : Dict V → List V
  values [] = []
  values ((k, v) ∷ m) = v ∷ values m

  -- `for key, value := range m { target[key] = value }`
  unfoldable pub copy_into : Dict V → Dict V → Dict V
  copy_into target [] = target
  copy_into target ((k, v) ∷ m) = copy_into (insert k v target) m

  unfoldable pub copy : Dict V → Dict V
  unfolding copy_into insert
  copy m = copy_into [] m

  -- No key stands twice, as in every Go map.
  abbrev pub Distinct : Dict V → Type ℓ
  Distinct [] = Unit
  Distinct ((k, v) ∷ m) = (lookup k m ≡ none) × Distinct m

-- maps.Equal at string values: as many keys, and each with the same value.
unfoldable pub included : Dict Text → Dict Text → Bool
unfolding lookup
included [] n = true
included ((k, v) ∷ m) n =
    (elim (lookup k n) [ none ↦ false | some w ↦ text_eq v w ]) && included m n

unfoldable pub maps_equal : Dict Text → Dict Text → Bool
unfolding included
maps_equal m n = length m == length n && included m n
