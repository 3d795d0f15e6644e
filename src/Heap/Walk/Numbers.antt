-- ===== src/Heap/Walk/Numbers.antt =====
-- The numbers of the depth-first walk: a numbering of the nodes reached, and a tree of parents.
use rootforge.Prelude.{
  ℕ, ◌<◌, ◌≡◌, ap, Option, none, some, false, List, Slice, written, Bool-cases, inl, inr, arith,
  ◌==◌, ==_iff,
}
use rootforge.Heap.Walk.{Walk, Frame, get_elem?}
use rootforge.Heap.Walk.Turns.{Turn, pops, advances, discovers}
use rootforge.Heap.Walk.Reach.{Marked, Marked-old, Reaches, edge}

module _ (kids : ℕ → List ℕ) (root size : ℕ) where
  -- A node is a successor of its parent, which has a lower number.
  pub record IsChild (dfn parent : Slice (Option ℕ)) (i w : ℕ) : Type 0 where
    pub up : ℕ
    pub number : ℕ
    pub nth : ℕ
    pub is_parent : parent.at w ≡ some up
    pub is_number : dfn.at up ≡ some number
    pub lower : number < i
    pub child : get_elem? (kids up) nth ≡ some w

  pub record IsNumbered (dfn parent : Slice (Option ℕ)) (vertex : Slice ℕ) : Type 0 where
    pub dfn_size : dfn.len ≡ size
    pub parent_size : parent.len ≡ size
    pub rooted : dfn.at root ≡ some 0
    pub numbered : (v n : ℕ) → dfn.at v ≡ some n → (n < vertex.len) × (vertex.at n ≡ v)
    pub listed : (i : ℕ) → i < vertex.len → (vertex.at i < size) × (dfn.at (vertex.at i) ≡ some i)
    pub reached : (v : ℕ) → Marked dfn v → Reaches kids root v
    pub parented : (i : ℕ) → 0 < i → i < vertex.len → IsChild dfn parent i (vertex.at i)

  fresh :
      (dfn : Slice (Option ℕ)) (u w n : ℕ) → dfn.at u ≡ some n → dfn.at w ≡ none → (u == w) ≡ false
  fresh dfn u w n e f = elim (Bool-cases (u == w)) [
    | inl same ↦ absurd (ground (arith, ap dfn.at ((==_iff u w).0 same), e, f))
    | inr other ↦ other
  ]

  IsChild-old :
      (s : Walk) (top : Frame) (rest : List Frame) (w i : ℕ)
      → IsNumbered s.dfn s.parent s.vertex
      → s.dfn.at w ≡ none
      → i < s.vertex.len
      → IsChild s.dfn s.parent i (s.vertex.at i)
      → IsChild
          (written s.dfn w (some s.vertex.len))
          (written s.parent w (some top.v))
          i
          (s.vertex.at i)
  IsChild-old s top rest w i h is low c = record {
    up = c.up;
    number = c.number;
    nth = c.nth;
    is_parent = rw (fresh s.dfn (s.vertex.at i) w i (h.listed i low).1 is) c.is_parent;
    is_number = rw (fresh s.dfn c.up w c.number c.is_number is) c.is_number;
    lower = c.lower;
    child = c.child;
  }

  pub IsNumbered-Turn :
      (s : Walk) (top : Frame) (rest : List Frame) (next : Walk)
      → Marked s.dfn top.v
      → IsNumbered s.dfn s.parent s.vertex
      → Turn kids s top rest next
      → IsNumbered next.dfn next.parent next.vertex
  IsNumbered-Turn s top rest next m h (pops n) = h
  IsNumbered-Turn s top rest next m h (advances w n at is) = h
  IsNumbered-Turn s top rest next m h (discovers w at is inside) = record {
    dfn_size = h.dfn_size;
    parent_size = h.parent_size;
    rooted = ground (arith, h.rooted);
    numbered = λ v n e. elim (Bool-cases (v == w)) [
      | inl new ↦ ground (arith, new, e)
      | inr old ↦ let (low, same) = h.numbered v n (ground arith) in ground arith
    ];
    listed = λ i low. elim (Bool-cases (i == s.vertex.len)) [
      | inl new ↦ rw new (omega (arith, inside, h.dfn_size), ground (arith, new))
      | inr old ↦
          let (fits, is_i) = h.listed i (ground arith) in
          rw old (fits, rw (fresh s.dfn (s.vertex.at i) w i is_i is) is_i)
    ];
    reached = λ v p. elim (Bool-cases (v == w)) [
      | inl new ↦ rw ((==_iff v w).0 new) (edge top.v top.next w (h.reached top.v m) at)
      | inr old ↦ h.reached v (Marked-old kids s.dfn w s.vertex.len v old p)
    ];
    parented = λ i pos low. elim (Bool-cases (i == s.vertex.len)) [
      | inl new ↦ rw new (record {
        up = top.v;
        number = m.0;
        nth = top.next;
        is_parent = ground arith;
        is_number = rw (fresh s.dfn top.v w m.0 m.1 is) (m.1);
        lower = ground (arith, h.numbered top.v m.0 m.1);
        child = at;
      })
      | inr old ↦
          rw old (IsChild-old s top rest w i h is (ground arith) (h.parented i pos (ground arith)))
    ];
  }
