-- ===== src/Heap/Walk/Reach.antt =====
-- What the turns of the depth-first walk keep: numbers, paths and unfinished nodes.
use rootforge.Prelude.{
  ℕ, zero, suc, ◌<◌, ◌≤◌, ◌≡◌, refl, sym, ap, false, All-weaken, Option, none, some, List, [], ◌∷◌,
  All, Slice, written, Bool-cases, ◌⊎◌, inl, inr, arith, ◌==◌, ==_iff,
}
use mathlib.Core.Path.{subst}
use rootforge.Heap.Walk.{Walk, Frame, get_elem?}
use rootforge.Heap.Walk.Turns.{Turn, pops, advances, discovers}

get_elem?-none : (xs : List ℕ) (i k : ℕ) → get_elem? xs i ≡ none → i ≤ k → get_elem? xs k ≡ none
get_elem?-none [] i k h l = refl
get_elem?-none (x ∷ xs) zero k h l = ground arith
get_elem?-none (x ∷ xs) (suc i) zero h l = absurd (omega (arith, l))
get_elem?-none (x ∷ xs) (suc i) (suc k) h l = get_elem?-none xs i k h (omega (arith, l))

pub get_elem?-All :
    (P : ℕ → Type 0) (xs : List ℕ) (i w : ℕ) → All P xs → get_elem? xs i ≡ some w → P w
get_elem?-All P [] i w h e = ground arith
get_elem?-All P (x ∷ xs) zero w h e = subst P (ground (arith, e)) h.0
get_elem?-All P (x ∷ xs) (suc i) w h e = get_elem?-All P xs i w h.1 e

-- A node that the walk has given a number.
abbrev pub Marked : Slice (Option ℕ) → ℕ → Type 0
Marked dfn v = (n : ℕ) × (dfn.at v ≡ some n)

-- The successor k of v is still to be looked at.
abbrev pub Pending : ℕ → ℕ → List Frame → Type 0
Pending v k [] = ⊥
Pending v k (f ∷ stack) = ((f.v ≡ v) × (f.next ≤ k)) ⊎ Pending v k stack

module _ (kids : ℕ → List ℕ) where
  -- The nodes that a path of references leads to.
  pub data Reaches (from : ℕ) : ℕ → Type 0 where
    here : Reaches from from
    edge : (v k w : ℕ) → Reaches from v → get_elem? (kids v) k ≡ some w → Reaches from w

  -- Every successor of a marked node is marked or still to be looked at.
  pub record IsScheduled (size : ℕ) (dfn : Slice (Option ℕ)) (stack : List Frame) : Type 0 where
    pub framed : All (λ f. (f.v < size) × Marked dfn f.v) stack
    pub complete :
        (v k w : ℕ)
        → Marked dfn v
        → get_elem? (kids v) k ≡ some w
        → Marked dfn w ⊎ Pending v k stack

  Marked-written :
      (dfn : Slice (Option ℕ)) (w n v : ℕ) → Marked dfn v → Marked (written dfn w (some n)) v
  Marked-written dfn w n v (m, e) = elim (Bool-cases (v == w)) [
    | inl same ↦ (n, rw same refl)
    | inr other ↦ (m, rw other e)
  ]

  Marked-new : (dfn : Slice (Option ℕ)) (w n : ℕ) → Marked (written dfn w (some n)) w
  Marked-new dfn w n = (n, ground arith)

  pub Marked-old :
      (dfn : Slice (Option ℕ)) (w n v : ℕ)
      → (v == w) ≡ false
      → Marked (written dfn w (some n)) v
      → Marked dfn v
  Marked-old dfn w n v other (m, e) = (m, ground (arith, e, other))

  module _ (size : ℕ) (closed : (v : ℕ) → v < size → All (λ w. w < size) (kids v)) where
    pub IsScheduled-Turn :
        (s : Walk) (top : Frame) (rest : List Frame) (next : Walk)
        → s.dfn.len ≡ size
        → IsScheduled size s.dfn (top ∷ rest)
        → Turn kids s top rest next
        → IsScheduled size next.dfn next.stack
    IsScheduled-Turn s top rest next e h (pops n) = record {
      framed = h.framed.1;
      complete = λ v k w m g. elim (h.complete v k w m g) [
        | inl marked ↦ inl marked
        | inr (inl (same, low)) ↦ absurd (
            ground (
              arith,
              get_elem?-none (kids top.v) top.next k n low,
              ap (λ u. get_elem? (kids u) k) same,
              g,
            ))
        | inr (inr later) ↦ inr later
      ];
    }
    IsScheduled-Turn s top rest next e h (advances w n at is) = record {
      framed = (h.framed.0, h.framed.1);
      complete = λ v k x m g. elim (h.complete v k x m g) [
        | inl marked ↦ inl marked
        | inr (inl (same, low)) ↦ elim (Bool-cases (k == top.next)) [
          | inl now ↦ let now = (==_iff k top.next).0 now in inl (n, cc)
          | inr other ↦ inr (inl (same, ground arith))
        ]
        | inr (inr later) ↦ inr (inr later)
      ];
    }
    IsScheduled-Turn s top rest next e h (discovers w at is inside) = record {
      framed = (
        (rw (sym e) inside, Marked-new s.dfn w s.vertex.len),
        All-weaken _ _ (top ∷ rest) (λ f p. (p.0, Marked-written s.dfn w s.vertex.len f.v p.1))
            h.framed,
      );
      complete = λ v k x m g. elim (Bool-cases (v == w)) [
        | inl new ↦ inr (inl (sym ((==_iff v w).0 new), omega arith))
        | inr old ↦ elim (h.complete v k x (Marked-old s.dfn w s.vertex.len v old m) g) [
          | inl marked ↦ inl (Marked-written s.dfn w s.vertex.len x marked)
          | inr (inl (same, low)) ↦ elim (Bool-cases (k == top.next)) [
            | inl now ↦
                let now = (==_iff k top.next).0 now in
                let found : x ≡ w = cc in inl (rw found (Marked-new s.dfn w s.vertex.len))
            | inr other ↦ inr (inr (inl (same, ground arith)))
          ]
          | inr (inr later) ↦ inr (inr (inr later))
        ]
      ];
    }
