-- ===== src/Heap/Lookup/Items.antt =====
-- The items of the sorted list of indices.
use rootforge.Prelude.{
  ℕ, zero, suc, ◌<◌, ◌≤◌, ◌≡◌, refl, sym, ap, ◌∙◌, Bool, List, [], ◌∷◌, ◌++◌, map, ◌==◌, ==_iff,
  length, length-append, All, All-append, item, Bool-cases, inl, inr, arith,
}
use rootforge.Sort.{sort_by, insert_by}
use rootforge.Heap.Lookup.{range}

-- Some index below the length has this item.
abbrev pub Has : ℕ → List ℕ → Type 0
Has x xs = (k : ℕ) × (k < length xs) × (item xs k ≡ x)

still :
    (y z : ℕ) (ys zs : List ℕ) (k : ℕ)
    → (Has z ys → Has z zs)
    → k < suc (length ys)
    → item (y ∷ ys) k ≡ z
    → Has z (y ∷ zs)
still y z ys zs zero f low is = (0, omega arith, is)
still y z ys zs (suc k) f low is =
    let (j, fits, at) = f (k, omega (arith, low), is) in (suc j, omega (arith, fits), at)

module _ (less : ℕ → ℕ → Bool) where
  insert_by-Has-head : (x : ℕ) (xs : List ℕ) → Has x (insert_by less x xs)
  unfolding insert_by
  insert_by-Has-head x [] = (0, omega arith, refl)
  insert_by-Has-head x (y ∷ ys) = elim (Bool-cases (less x y)) [
    | inl e ↦ rw e (0, omega arith, refl)
    | inr e ↦ let (k, low, is) = insert_by-Has-head x ys in rw e (suc k, omega (arith, low), is)
  ]

  insert_by-Has : (x z : ℕ) (xs : List ℕ) → Has z xs → Has z (insert_by less x xs)
  unfolding insert_by
  insert_by-Has x z [] (k, low, is) = absurd (omega (arith, low))
  insert_by-Has x z (y ∷ ys) (k, low, is) = elim (Bool-cases (less x y)) [
    | inl e ↦ rw e (suc k, omega (arith, low), is)
    | inr e ↦ rw e (still y z ys (insert_by less x ys) k (insert_by-Has x z ys) low is)
  ]

  pub sort_by-Has : (z : ℕ) (xs : List ℕ) → Has z xs → Has z (sort_by less xs)
  unfolding sort_by
  sort_by-Has z [] (k, low, is) = absurd (omega (arith, low))
  sort_by-Has z (x ∷ xs) (zero, low, is) = rw (sym is) (insert_by-Has-head x (sort_by less xs))
  sort_by-Has z (x ∷ xs) (suc k, low, is) =
      insert_by-Has x z (sort_by less xs) (sort_by-Has z xs (k, omega (arith, low), is))

item-append : (xs ys : List ℕ) (k : ℕ) → k < length xs → item (xs ++ ys) k ≡ item xs k
item-append [] ys k h = absurd (omega (arith, h))
item-append (x ∷ xs) ys zero h = refl
item-append (x ∷ xs) ys (suc k) h = item-append xs ys k (omega (arith, h))

item-last : (xs : List ℕ) (x : ℕ) → item (xs ++ (x ∷ [])) (length xs) ≡ x
item-last [] x = refl
item-last (y ∷ xs) x = item-last xs x

pub length-range : (n : ℕ) → length (range n) ≡ n
length-range zero = refl
length-range (suc n) = omega (arith, length-append (range n) (n ∷ []), length-range n)

pub item-range : (n i : ℕ) → i < n → item (range n) i ≡ i
item-range zero i h = absurd (omega (arith, h))
item-range (suc n) i h = elim (Bool-cases (i == n)) [
  | inl same ↦
      let e = (==_iff i n).0 same in
      rw e (ap (item (range n ++ (n ∷ []))) (sym (length-range n)) ∙ item-last (range n) n)
  | inr other ↦
      item-append (range n) (n ∷ []) i (ground (arith, length-range n))
      ∙ item-range n i (ground arith)
]

pub range-All : (n m : ℕ) → n ≤ m → All (λ i. i < m) (range n)
range-All zero m h = tt
range-All (suc n) m h =
    All-append (λ i. i < m) (range n) (n ∷ []) (range-All n m (omega (arith, h)))
      (omega (arith, h), tt)

pub item-All : (P : ℕ → Type 0) (xs : List ℕ) (k : ℕ) → All P xs → k < length xs → P (item xs k)
item-All P [] k h low = absurd (omega (arith, low))
item-All P (x ∷ xs) zero h low = h.0
item-All P (x ∷ xs) (suc k) h low = item-All P xs k h.1 (omega (arith, low))

pub item-map : (f : ℕ → ℕ) (xs : List ℕ) (k : ℕ) → k < length xs → item (map f xs) k ≡ f (item xs k)
item-map f [] k h = absurd (omega (arith, h))
item-map f (x ∷ xs) zero h = refl
item-map f (x ∷ xs) (suc k) h = item-map f xs k (omega (arith, h))
