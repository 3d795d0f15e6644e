-- ===== src/Heap/Lookup/Search.antt =====
-- sort.Search finds the first index at which a test holds.
use rootforge.Prelude.{
  ℕ, zero, suc, ◌+◌, ◌/◌, ◌<◌, ◌≤◌, ◌≡◌, Bool, true, false, ltb, Bool-cases, inl, inr, arith,
}
use rootforge.Heap.Lookup.{search_from}

-- A test that holds from some index on.
abbrev pub Monotone : ℕ → (ℕ → Bool) → Type 0
Monotone n f = (k l : ℕ) → k ≤ l → l < n → f k ≡ true → f l ≡ true

pub record IsFirst (n : ℕ) (f : ℕ → Bool) (r : ℕ) : Type 0 where
  pub in_range : r ≤ n
  pub below : (k : ℕ) → k < r → f k ≡ false
  pub from : (k : ℕ) → r ≤ k → k < n → f k ≡ true

before : (f : ℕ → Bool) (n k l : ℕ) → Monotone n f → k ≤ l → l < n → f l ≡ false → f k ≡ false
before f n k l m low high fails = elim (Bool-cases (f k)) [
  | inl holds ↦ absurd (ground (arith, m k l low high holds, fails))
  | inr e ↦ e
]

pub search_from-IsFirst :
    (n : ℕ) (f : ℕ → Bool) (fuel i j : ℕ)
    → Monotone n f
    → i ≤ j
    → j ≤ n
    → j ≤ i + fuel
    → ((k : ℕ) → k < i → f k ≡ false)
    → ((k : ℕ) → j ≤ k → k < n → f k ≡ true)
    → IsFirst n f (search_from f fuel i j)
unfolding search_from
search_from-IsFirst n f zero i j m low high enough below from = record {
  in_range = omega (arith, low, high);
  below = below;
  from = λ k p q. from k (omega (arith, p, enough)) q;
}
search_from-IsFirst n f (suc fuel) i j m low high enough below from = elim (Bool-cases (ltb i j)) [
  | inl more ↦ elim (Bool-cases (f ((i + j) / 2))) [
    | inl holds ↦
        rw (more, holds, search_from)
          (search_from-IsFirst n f fuel i ((i + j) / 2) m (ground arith) (ground arith)
            (ground arith) below (λ k p q. m ((i + j) / 2) k p q holds))
    | inr fails ↦
        rw (more, fails, search_from)
          (search_from-IsFirst n f fuel ((i + j) / 2 + 1) j m (ground arith) high (ground arith)
            (λ k p. before f n k ((i + j) / 2) m (omega (arith, p)) (ground arith) fails) from)
  ]
  | inr done ↦
      rw (done, search_from)
        (record {
          in_range = omega (arith, low, high);
          below = below;
          from = λ k p q. from k (ground (arith, p)) q;
        })
]
