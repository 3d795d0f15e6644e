-- ===== src/Heap/Dominators/Retain.antt =====
-- The retained sizes of Dominators in heapdump/hprofx/dom.go.
use rootforge.Prelude.{
  ℕ, zero, suc, ◌+◌, ◌-◌, ◌%◌, ◌^◌, ◌<◌, ◌≤◌, ◌≡◌, refl, ◌∙◌, Option, none, some, ltb,
  if◌then◌else◌, get-lt, put-lt, written, Bool-cases, Option-cases, inl, inr, arith,
}
use rootforge.Heap.Graph.{Graph, node_count}
use rootforge.Heap.Dominators.{Dom, own_size, own_sizes, retain, widen, add_int64}
use rootforge.Heap.Dominators.Fold.{IsTree, children, fold_all-IsFolded}

-- The size of a node, if the walk has reached it.
abbrev pub own_or : ℕ → ℕ → Option ℕ → ℕ
own_or size x none = x
own_or size x (some n) = widen size

module _ (g : Graph) where
  record IsSized (from to : ℕ) (d next : Dom) : Type 0 where
    vertex : next.vertex ≡ d.vertex
    idom : next.idom ≡ d.idom
    dfn : next.dfn ≡ d.dfn
    as_long : next.retained.len ≡ d.retained.len
    inside :
        (v : ℕ)
        → from ≤ v
        → v < to
        → next.retained.at v ≡ own_or (g.size.at v) (d.retained.at v) (d.dfn.at v)
    below : (v : ℕ) → v < from → next.retained.at v ≡ d.retained.at v
    above : (v : ℕ) → to ≤ v → next.retained.at v ≡ d.retained.at v

  own_size-IsSized :
      (i : ℕ) (d : Dom)
      → i < d.dfn.len
      → i < g.size.len
      → i < d.retained.len
      → (next : Dom) × (own_size g d i ≡ some next) × IsSized i (i + 1) d next
  unfolding own_size
  own_size-IsSized i d hd hs hr = elim (Option-cases (d.dfn.at i)) [
    | inl unseen ↦ (
      record d { unreach = add_int64 d.unreach (widen (g.size.at i)) },
      rw (get-lt d.dfn i hd, get-lt g.size i hs, unseen) refl,
      record {
        vertex = refl;
        idom = refl;
        dfn = refl;
        as_long = refl;
        inside = λ v low high. let e : v ≡ i = omega (arith, low, high) in rw (e, unseen) refl;
        below = λ v low. refl;
        above = λ v low. refl;
      },
    )
    | inr (n, seen) ↦ (
      record d { retained = written d.retained i (widen (g.size.at i)) },
      rw (get-lt d.dfn i hd, get-lt g.size i hs, seen, put-lt d.retained i (widen (g.size.at i)) hr)
          refl,
      record {
        vertex = refl;
        idom = refl;
        dfn = refl;
        as_long = refl;
        inside =
            λ v low high. let e : v ≡ i = omega (arith, low, high) in rw (e, seen) (ground arith);
        below = λ v low. ground arith;
        above = λ v low. ground arith;
      },
    )
  ]

  own_sizes-IsSized :
      (n i : ℕ) (d : Dom)
      → i + n ≤ g.size.len
      → i + n ≤ d.dfn.len
      → i + n ≤ d.retained.len
      → (next : Dom) × (own_sizes g n i d ≡ some next) × IsSized i (i + n) d next
  unfolding own_sizes
  own_sizes-IsSized zero i d hs hd hr = (
    d,
    refl,
    record {
      vertex = refl;
      idom = refl;
      dfn = refl;
      as_long = refl;
      inside = λ v low high. absurd (omega (arith, low, high));
      below = λ v low. refl;
      above = λ v low. refl;
    },
  )
  own_sizes-IsSized (suc n) i d hs hd hr =
      let (next, run, s) =
        own_size-IsSized i d (omega (arith, hd)) (omega (arith, hs)) (omega (arith, hr)) in
      let (last, runs, t) =
        own_sizes-IsSized n (suc i) next (omega (arith, hs)) (rw s.dfn (omega (arith, hd)))
          (rw s.as_long (omega (arith, hr))) in
      (
        last,
        rw run runs,
        record {
          vertex = t.vertex ∙ s.vertex;
          idom = t.idom ∙ s.idom;
          dfn = t.dfn ∙ s.dfn;
          as_long = t.as_long ∙ s.as_long;
          inside = λ v low high. elim (Bool-cases (ltb i v)) [
            | inl later ↦
                t.inside v (ground arith) (omega (arith, high))
                ∙ rw (s.dfn, s.above v (ground arith)) refl
            | inr now ↦ t.below v (ground arith) ∙ s.inside v low (ground arith)
          ];
          below = λ v low. t.below v (omega (arith, low)) ∙ s.below v low;
          above = λ v low. t.above v (omega (arith, low)) ∙ s.above v (omega (arith, low));
        },
      )

  -- The size that a node starts with.
  abbrev pub start_size : Dom → ℕ → ℕ
  start_size d v = if ltb v (node_count g) then own_or (g.size.at v) 0 (d.dfn.at v) else 0

  pub record CanRetain (d : Dom) : Type 0 where
    pub listed : 0 < d.vertex.len
    pub sized : g.size.len ≡ node_count g
    pub numbered : d.dfn.len ≡ node_count g + 1
    pub room : d.retained.len ≡ node_count g + 1
    pub empty : (v : ℕ) → d.retained.at v ≡ 0
    pub narrow : (v : ℕ) → g.size.at v < 2 ^ 32

  start_size-IsSized :
      (d next : Dom) (v : ℕ)
      → CanRetain d
      → IsSized 0 (0 + node_count g) d next
      → next.retained.at v ≡ start_size d v
  start_size-IsSized d next v c s = elim (Bool-cases (ltb v (node_count g))) [
    | inl low ↦ rw low (s.inside v (omega arith) (ground arith) ∙ rw (c.empty v) refl)
    | inr high ↦ rw high (s.above v (ground arith) ∙ c.empty v)
  ]

  start_size-bound : (d : Dom) (v : ℕ) → CanRetain d → start_size d v < 2 ^ 64
  start_size-bound d v c = elim (Option-cases (d.dfn.at v)) [
    | inl unseen ↦ rw unseen (ground arith)
    | inr (n, seen) ↦ rw seen (ground (arith, c.narrow v))
  ]

  -- The loops for the retained sizes return without an index out of range, and then every node
  -- retains its own size, which counts if it is reachable and not the virtual root, and what the
  -- nodes it immediately dominates retain, modulo 2 ^ 64; each listed node but the first has an
  -- immediate dominator listed before it.
  pub retain-children :
      (d : Dom)
      → CanRetain d
      → IsTree (node_count g + 1) d.vertex d.idom
      → (done : Dom) × (retain g d ≡ some done)
        × ((v : ℕ)
            → done.retained.at v
              ≡ (start_size d v + children d.vertex d.idom (d.vertex.len - 1) v done.retained)
                % 2 ^ 64)
  unfolding retain
  retain-children d c tree =
      let (next, run, s) =
        own_sizes-IsSized (node_count g) 0 d (omega (arith, c.sized)) (omega (arith, c.numbered))
          (omega (arith, c.room)) in
      let (folded, fold, f) =
        fold_all-IsFolded d.vertex d.idom (node_count g + 1) tree (d.vertex.len - 1) next.retained
          (omega (arith, c.listed)) (s.as_long ∙ c.room)
          (λ v. rw (start_size-IsSized d next v c s) (start_size-bound d v c)) in
      (
        record next { retained = folded },
        rw (run, s.vertex, s.idom, fold) refl,
        λ v. f.adds v ∙ rw (start_size-IsSized d next v c s) refl,
      )
