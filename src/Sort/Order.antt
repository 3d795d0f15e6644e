-- ===== src/Sort/Order.antt =====
-- Sorting keeps what holds of every item, and puts a least item first.
use rootforge.Prelude.{
  ◌≡◌, refl, Bool, true, false, List, [], ◌∷◌, arith, All, inl, inr, Bool-cases,
}
use rootforge.Text.{Text, text_lt}
use rootforge.Sort.{insert_by, sort_by}

module _ {ℓ κ} {A : Type ℓ} (P : A → Type κ) (less : A → A → Bool) where
  pub insert_by-All : (x : A) (xs : List A) → P x → All P xs → All P (insert_by less x xs)
  unfolding insert_by
  insert_by-All x [] p h = (p, tt)
  insert_by-All x (y ∷ ys) p h = elim (Bool-cases (less x y)) [
    | inl e ↦ rw (e, insert_by) (p, h)
    | inr e ↦ rw (e, insert_by) (h.0, insert_by-All x ys p h.1)
  ]

  pub sort_by-All : (xs : List A) → All P xs → All P (sort_by less xs)
  unfolding sort_by
  sort_by-All [] h = tt
  sort_by-All (x ∷ xs) h = insert_by-All x (sort_by less xs) h.0 (sort_by-All xs h.1)

-- A strict weak order, as sort.Slice wants it.
pub record StrictWeak {ℓ} {A : Type ℓ} (less : A → A → Bool) : Type ℓ where
  pub asymmetric : (x y : A) → less x y ≡ true → less y x ≡ false
  pub not_less_trans : (x y z : A) → less y x ≡ false → less z y ≡ false → less z x ≡ false

module _ {ℓ} {A : Type ℓ} {less : A → A → Bool} (order : StrictWeak less) where
  -- No item comes before a smaller one.
  abbrev pub Ascending : List A → Type 0
  Ascending [] = Unit
  Ascending (x ∷ xs) = All (λ y. less y x ≡ false) xs × Ascending xs

  not_less-All :
      (x y : A) (ys : List A)
      → less y x ≡ false
      → All (λ z. less z y ≡ false) ys
      → All (λ z. less z x ≡ false) ys
  not_less-All x y [] h k = tt
  not_less-All x y (z ∷ zs) h k = (order.not_less_trans x y z h k.0, not_less-All x y zs h k.1)

  insert_by-Ascending : (x : A) (ys : List A) → Ascending ys → Ascending (insert_by less x ys)
  unfolding insert_by
  insert_by-Ascending x [] h = (tt, tt)
  insert_by-Ascending x (y ∷ ys) h = elim (Bool-cases (less x y)) [
    | inl e ↦
        let below = order.asymmetric x y e in
        rw (e, insert_by) ((below, not_less-All x y ys below h.0), h)
    | inr e ↦
        rw (e, insert_by)
          (insert_by-All (λ z. less z y ≡ false) less x ys e h.0, insert_by-Ascending x ys h.1)
  ]

  pub sort_by-Ascending : (xs : List A) → Ascending (sort_by less xs)
  unfolding sort_by
  sort_by-Ascending [] = tt
  sort_by-Ascending (x ∷ xs) = insert_by-Ascending x (sort_by less xs) (sort_by-Ascending xs)

pub text_lt_asymmetric : (s t : Text) → text_lt s t ≡ true → text_lt t s ≡ false
unfolding text_lt
text_lt_asymmetric s [] h = ground arith
text_lt_asymmetric [] (y ∷ ys) h = refl
text_lt_asymmetric (x ∷ xs) (y ∷ ys) h = ground (arith, text_lt_asymmetric xs ys)

pub text_lt_not_trans :
    (s t u : Text) → text_lt t s ≡ false → text_lt u t ≡ false → text_lt u s ≡ false
unfolding text_lt
text_lt_not_trans [] t u h k = refl
text_lt_not_trans (x ∷ xs) [] u h k = ground arith
text_lt_not_trans (x ∷ xs) (y ∷ ys) [] h k = ground arith
text_lt_not_trans (x ∷ xs) (y ∷ ys) (z ∷ zs) h k = ground (arith, text_lt_not_trans xs ys zs)
