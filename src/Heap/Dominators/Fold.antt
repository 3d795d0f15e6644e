-- ===== src/Heap/Dominators/Fold.antt =====
-- The loop of Dominators in heapdump/hprofx/dom.go that folds each node into its dominator.
use rootforge.Prelude.{
  ℕ, zero, suc, ◌+◌, ◌%◌, ◌^◌, ◌<◌, ◌≤◌, ◌≡◌, ◌≢◌, refl, ap, ◌∙◌, Option, some, false, ◌==◌, ==_iff,
  if◌then◌else◌, Slice, get-lt, put-lt, written, Bool-cases, inl, inr, arith,
}
use rootforge.Heap.Dominators.{add_int64, is_node, fold_into, fold_all}

-- Vertex lists distinct nodes, and each but the first has a dominator that is listed before it.
pub record IsTree (size : ℕ) (vertex : Slice ℕ) (idom : Slice (Option ℕ)) : Type 0 where
  pub idom_size : idom.len ≡ size
  pub fits : (i : ℕ) → i < vertex.len → vertex.at i < size
  pub distinct : (i j : ℕ) → i < j → j < vertex.len → vertex.at i ≢ vertex.at j
  pub before :
      (i : ℕ)
      → 0 < i
      → i < vertex.len
      → (j : ℕ) × (j < i) × (idom.at (vertex.at i) ≡ some (vertex.at j))

==_swap : (a b : ℕ) → (a == b) ≡ false → (b == a) ≡ false
==_swap a b h = ground arith

abbrev after_fold : Slice ℕ → ℕ → ℕ → Slice ℕ
after_fold retained w p = written retained p (add_int64 (retained.at p) (retained.at w))

mod_mod : (a b c : ℕ) → (((a + b) % 2 ^ 64) + c) % 2 ^ 64 ≡ (a + (c + b)) % 2 ^ 64
mod_mod a b c = omega arith

adds_step :
    (retained folded : Slice ℕ) (w p v rest : ℕ)
    → (w == p) ≡ false
    → folded.at w ≡ (after_fold retained w p).at w
    → folded.at v ≡ ((after_fold retained w p).at v + rest) % 2 ^ 64
    → folded.at v ≡ (retained.at v + (rest + (if p == v then folded.at w else 0))) % 2 ^ 64
adds_step retained folded w p v rest other kept h = elim (Bool-cases (v == p)) [
  | inl child ↦
      let same = (==_iff v p).0 child in
      ground
        (arith, h, kept, other, ap retained.at same, mod_mod (retained.at p) (retained.at w) rest)
  | inr not_child ↦ ground (arith, h)
]

module _ (vertex : Slice ℕ) (idom : Slice (Option ℕ)) where
  -- What the children of v among the nodes listed from 1 to i retain.
  abbrev pub children : ℕ → ℕ → Slice ℕ → ℕ
  children zero v retained = 0
  children (suc i) v retained =
      children i v retained
      + (if is_node (idom.at (vertex.at (suc i))) v then retained.at (vertex.at (suc i)) else 0)

  module _ (size : ℕ) (tree : IsTree size vertex idom) where
    pub record IsFolded (i : ℕ) (retained folded : Slice ℕ) : Type 0 where
      pub as_long : folded.len ≡ retained.len
      pub keeps :
          (k : ℕ) → i ≤ k → k < vertex.len → folded.at (vertex.at k) ≡ retained.at (vertex.at k)
      pub adds : (v : ℕ) → folded.at v ≡ (retained.at v + children i v folded) % 2 ^ 64

    pub fold_all-IsFolded :
        (i : ℕ) (retained : Slice ℕ)
        → i < vertex.len
        → retained.len ≡ size
        → ((v : ℕ) → retained.at v < 2 ^ 64)
        → (folded : Slice ℕ) × (fold_all vertex idom i retained ≡ some folded)
          × IsFolded i retained folded
    unfolding fold_all fold_into
    fold_all-IsFolded zero retained low e small = (
      retained,
      refl,
      record { as_long = refl; keeps = λ k l m. refl; adds = λ v. omega (arith, small v) },
    )
    fold_all-IsFolded (suc i) retained low e small =
        let (j, below, is) = tree.before (suc i) (omega arith) low in
        let w = vertex.at (suc i) in
        let p = vertex.at j in
        let fits_w = tree.fits (suc i) low in
        let fits_p = tree.fits j (omega (arith, below, low)) in
        let apart : (p == w) ≡ false = ground (arith, tree.distinct j (suc i) below low) in
        let total = add_int64 (retained.at p) (retained.at w) in
        let next = written retained p total in
        let (folded, run, f) =
          fold_all-IsFolded i next (omega (arith, low)) e (λ v. ground (arith, small v)) in
        (
          folded,
          rw
              (
                get-lt vertex (suc i) low,
                get-lt idom w (rw tree.idom_size fits_w),
                is,
                apart,
                get-lt retained p (rw e fits_p),
                get-lt retained w (rw e fits_w),
                put-lt retained p total (rw e fits_p),
              )
              run,
          record {
            as_long = f.as_long;
            keeps = λ k l m.
                let other : (vertex.at k == p) ≡ false =
                  ground (arith, tree.distinct j k (omega (arith, below, l)) m) in
                f.keeps k (omega (arith, l)) m ∙ rw other refl;
            adds = λ v. rw is (
                adds_step retained folded w p v (children i v folded) (==_swap p w apart)
                  (f.keeps (suc i) (omega arith) low) (f.adds v));
          },
        )
