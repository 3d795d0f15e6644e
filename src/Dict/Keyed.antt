-- ===== src/Dict/Keyed.antt =====
-- Items that carry their own key: the values of a map that is keyed by them, sorted or not.
use rootforge.Prelude.{
  ◌≡◌, refl, ap, ◌∙◌, Bool, Option, none, some, List, [], ◌∷◌, arith, if◌then◌else◌,
}
use mathlib.Core.Path.{subst}
use rootforge.Text.{Text, text_eq, text_eq_iff, text_eq_refl}
use rootforge.Sort.{insert_by, sort_by}
use rootforge.Dict.{Dict, lookup, values, Distinct}
use rootforge.Dict.Laws.{Entries}

module _ {ℓ} {A : Type ℓ} (key : A → Text) where
  unfoldable pub find : Text → List A → Option A
  find k [] = none
  find k (x ∷ xs) = if text_eq (key x) k then some x else find k xs

  abbrev pub UniqueKeys : List A → Type ℓ
  UniqueKeys [] = Unit
  UniqueKeys (x ∷ xs) = (find (key x) xs ≡ none) × UniqueKeys xs

  -- Every value stands under its own key.
  abbrev pub OwnKey : Text → A → Type 0
  OwnKey k x = k ≡ key x

  pub find-values : (k : Text) (m : Dict A) → Entries OwnKey m → find k (values m) ≡ lookup k m
  unfolding find values lookup
  find-values k [] h = refl
  find-values k ((j, x) ∷ m) h =
      rw (← h.0) (ap (λ (o : Option A). if text_eq j k then some x else o) (find-values k m h.1))

  pub values-UniqueKeys : (m : Dict A) → Entries OwnKey m → Distinct m → UniqueKeys (values m)
  unfolding values
  values-UniqueKeys [] h d = tt
  values-UniqueKeys ((j, x) ∷ m) h d = (
    find-values (key x) m h.1 ∙ subst (λ (k : Text). lookup k m ≡ none) h.0 d.0,
    values-UniqueKeys m h.1 d.1,
  )

  module _ (less : A → A → Bool) where
    find-insert_by :
        (k : Text) (x : A) (xs : List A)
        → find (key x) xs ≡ none
        → find k (insert_by less x xs) ≡ (if text_eq (key x) k then some x else find k xs)
    unfolding find insert_by
    find-insert_by k x [] h = refl
    find-insert_by k x (y ∷ ys) h = ground (
      arith,
      find-insert_by k x ys,
      text_eq_iff (key x) k,
      text_eq_iff (key y) k,
      text_eq_refl k,
      text_eq_iff (key y) (key x),
    )

    insert_by-UniqueKeys :
        (x : A) (xs : List A)
        → find (key x) xs ≡ none
        → UniqueKeys xs
        → UniqueKeys (insert_by less x xs)
    unfolding find insert_by
    insert_by-UniqueKeys x [] h u = (refl, tt)
    insert_by-UniqueKeys x (y ∷ ys) h u = ground (
      arith,
      insert_by-UniqueKeys x ys,
      find-insert_by (key y) x ys,
      text_eq_iff (key x) (key y),
      text_eq_iff (key y) (key x),
    )

    pub find-sort_by :
        (k : Text) (xs : List A) → UniqueKeys xs → find k (sort_by less xs) ≡ find k xs
    unfolding find sort_by
    find-sort_by k [] u = refl
    find-sort_by k (x ∷ xs) u =
        find-insert_by k x (sort_by less xs) (find-sort_by (key x) xs u.1 ∙ u.0)
        ∙ ap (λ (o : Option A). if text_eq (key x) k then some x else o) (find-sort_by k xs u.1)

    pub sort_by-UniqueKeys : (xs : List A) → UniqueKeys xs → UniqueKeys (sort_by less xs)
    unfolding sort_by
    sort_by-UniqueKeys [] u = tt
    sort_by-UniqueKeys (x ∷ xs) u =
        insert_by-UniqueKeys x (sort_by less xs) (find-sort_by (key x) xs u.1 ∙ u.0)
          (sort_by-UniqueKeys xs u.1)
