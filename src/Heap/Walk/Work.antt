-- ===== src/Heap/Walk/Work.antt =====
-- The turns that the depth-first walk of Dominators has still to take fall by one at each.
use rootforge.Prelude.{
  ℕ, zero, suc, ◌+◌, ◌-◌, ◌<◌, ◌≤◌, ◌≡◌, refl, Option, none, some, List, [], ◌∷◌, Slice, written,
  inl, inr, arith, ◌==◌, ==_iff, length, Bool-cases,
}
use rootforge.Heap.Walk.{Walk, Frame, get_elem?}
use rootforge.Heap.Walk.Turns.{Turn, pops, advances, discovers}

get_elem?-none-length : (xs : List ℕ) (i : ℕ) → get_elem? xs i ≡ none → length xs ≤ i
get_elem?-none-length [] i h = omega arith
get_elem?-none-length (x ∷ xs) zero h = absurd (ground (arith, h))
get_elem?-none-length (x ∷ xs) (suc i) h = omega (arith, get_elem?-none-length xs i h)

get_elem?-some-length : (xs : List ℕ) (i w : ℕ) → get_elem? xs i ≡ some w → i < length xs
get_elem?-some-length [] i w h = absurd (ground (arith, h))
get_elem?-some-length (x ∷ xs) zero w h = omega arith
get_elem?-some-length (x ∷ xs) (suc i) w h = omega (arith, get_elem?-some-length xs i w h)

module _ (kids : ℕ → List ℕ) where
  abbrev pub cost : Option ℕ → ℕ → ℕ
  cost none v = suc (length (kids v))
  cost (some n) v = 0

  -- The turns for the nodes below n without a number.
  abbrev pub open_work : ℕ → Slice (Option ℕ) → ℕ
  open_work zero dfn = 0
  open_work (suc n) dfn = open_work n dfn + cost (dfn.at n) n

  abbrev pub stack_work : List Frame → ℕ
  stack_work [] = 0
  stack_work (f ∷ stack) = suc (length (kids f.v) - f.next) + stack_work stack

  open_work-above :
      (n w m : ℕ) (dfn : Slice (Option ℕ))
      → n ≤ w
      → open_work n (written dfn w (some m)) ≡ open_work n dfn
  open_work-above zero w m dfn h = refl
  open_work-above (suc n) w m dfn h = elim (Bool-cases (n == w)) [
    | inl same ↦ absurd (ground arith)
    | inr other ↦ rw other (omega (arith, open_work-above n w m dfn (omega (arith, h))))
  ]

  pub open_work-written :
      (n w m : ℕ) (dfn : Slice (Option ℕ))
      → w < n
      → dfn.at w ≡ none
      → open_work n (written dfn w (some m)) + suc (length (kids w)) ≡ open_work n dfn
  open_work-written zero w m dfn h e = absurd (omega (arith, h))
  open_work-written (suc n) w m dfn h e = elim (Bool-cases (n == w)) [
    | inl same ↦
        rw ((==_iff n w).0 same, e) (ground (arith, open_work-above w w m dfn (omega arith)))
    | inr other ↦ rw other (omega (arith, open_work-written n w m dfn (ground arith) e))
  ]

  abbrev pub work : ℕ → Walk → ℕ
  work size s = open_work size s.dfn + stack_work s.stack

  pub work-Turn :
      (size : ℕ) (s : Walk) (top : Frame) (rest : List Frame) (next : Walk)
      → s.dfn.len ≡ size
      → Turn kids s top rest next
      → suc (work size next) ≡ open_work size s.dfn + stack_work (top ∷ rest)
  work-Turn size s top rest next e (pops n) =
      omega (arith, get_elem?-none-length (kids top.v) top.next n)
  work-Turn size s top rest next e (advances w n at is) =
      omega (arith, get_elem?-some-length (kids top.v) top.next w at)
  work-Turn size s top rest next e (discovers w at is inside) = omega (
    arith,
    get_elem?-some-length (kids top.v) top.next w at,
    open_work-written size w s.vertex.len s.dfn (omega (arith, e, inside)) is,
  )
