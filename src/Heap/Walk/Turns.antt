-- ===== src/Heap/Walk/Turns.antt =====
-- The turns of the depth-first walk of Dominators in heapdump/hprofx/dom.go, as a step relation.
use rootforge.Prelude.{
  ℕ, ◌+◌, ◌<◌, ◌≡◌, refl, Option, none, some, List, ◌∷◌, append, written, get-lt, put-lt,
  Option-cases, inl, inr,
}
use rootforge.Heap.Walk.{Walk, Frame, visit, look, discover, get_elem?}

abbrev pub stepped : Frame → Frame
stepped top = record top { next = top.next + 1 }

-- The walk after w takes the next number.
abbrev pub discovered : Walk → Frame → List Frame → ℕ → Walk
discovered s top rest w = record {
  dfn = written s.dfn w (some s.vertex.len);
  parent = written s.parent w (some top.v);
  vertex = append s.vertex w;
  stack = record { v = w; next = 0 } ∷ stepped top ∷ rest;
}

module _ (kids : ℕ → List ℕ) where
  -- What one turn does to a walk whose stack is `top ∷ rest`.
  pub data Turn (s : Walk) (top : Frame) (rest : List Frame) : Walk → Type 0 where
    pops : get_elem? (kids top.v) top.next ≡ none → Turn s top rest (record s { stack = rest })
    advances :
        (w n : ℕ)
        → get_elem? (kids top.v) top.next ≡ some w
        → s.dfn.at w ≡ some n
        → Turn s top rest (record s { stack = stepped top ∷ rest })
    discovers :
        (w : ℕ)
        → get_elem? (kids top.v) top.next ≡ some w
        → s.dfn.at w ≡ none
        → w < s.dfn.len
        → Turn s top rest (discovered s top rest w)

  pub visit-Turn :
      (succ : ℕ → Option (List ℕ)) (s : Walk) (top : Frame) (rest : List Frame)
      → succ top.v ≡ some (kids top.v)
      → ((w : ℕ) → get_elem? (kids top.v) top.next ≡ some w → (w < s.dfn.len) × (w < s.parent.len))
      → (next : Walk) × (visit succ s top rest ≡ some next) × Turn s top rest next
  unfolding visit look discover
  visit-Turn succ s top rest e inside = elim (Option-cases (get_elem? (kids top.v) top.next)) [
    | inl n ↦ (record s { stack = rest }, rw (e, n) refl, pops n)
    | inr (w, k) ↦ elim (Option-cases (s.dfn.at w)) [
      | inl n ↦ (
        discovered s top rest w,
        rw
            (
              e,
              k,
              get-lt s.dfn w (inside w k).0,
              n,
              put-lt s.dfn w (some s.vertex.len) (inside w k).0,
              put-lt s.parent w (some top.v) (inside w k).1,
            )
            refl,
        discovers w k n (inside w k).0,
      )
      | inr (m, n) ↦ (
        record s { stack = stepped top ∷ rest },
        rw (e, k, get-lt s.dfn w (inside w k).0, n) refl,
        advances w m k n,
      )
    ]
  ]
