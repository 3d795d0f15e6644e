-- ===== src/Heap/Walk/Ends.antt =====
-- The depth-first walk ends within its turns, without an index out of range, and has then given a
-- number to the nodes that a path leads to.
use rootforge.Prelude.{
  ℕ, zero, suc, ◌+◌, ◌-◌, ◌<◌, ◌≤◌, ◌≡◌, ◌↔◌, refl, sym, ap, ◌∙◌, Option, none, some, List, [], ◌∷◌,
  make, All, inl, inr, arith, length,
}
use rootforge.Hprof.Reader.{◌>>=◌}
use rootforge.Heap.Graph.{Graph, node_count}
use rootforge.Heap.Walk.{Walk, Frame, get_elem?, walk_from, visit, turns, start_walk, walk, succ}
use rootforge.Heap.Walk.Work.{open_work, stack_work, open_work-written, work-Turn}
use rootforge.Heap.Walk.Turns.{Turn, visit-Turn}
use rootforge.Heap.Walk.Reach.{
  Marked, Reaches, here, edge, IsScheduled, IsScheduled-Turn, get_elem?-All,
}
use rootforge.Heap.Walk.Numbers.{IsNumbered, IsNumbered-Turn}

walk_from-step :
    (succ : ℕ → Option (List ℕ)) (fuel : ℕ) (s : Walk) (top : Frame) (rest : List Frame)
    → s.stack ≡ top ∷ rest
    → walk_from succ (suc fuel) s ≡ (visit succ s top rest >>= λ next. walk_from succ fuel next)
unfolding walk_from
walk_from-step succ fuel s top rest e =
    ap
      (λ (stack : List Frame). elim stack [
        | [] ↦ some s
        | top ∷ rest ↦ visit succ s top rest >>= λ next. walk_from succ fuel next
      ])
      e

module _ (kids : ℕ → List ℕ) where
  record IsGoing (root size : ℕ) (s : Walk) (stack : List Frame) : Type 0 where
    numbers : IsNumbered kids root size s.dfn s.parent s.vertex
    schedule : IsScheduled kids size s.dfn stack

  module _ (succ : ℕ → Option (List ℕ)) (root size : ℕ)
      (total : (v : ℕ) → v < size → succ v ≡ some (kids v))
      (closed : (v : ℕ) → v < size → All (λ w. w < size) (kids v)) where
    IsGoing-Turn :
        (s : Walk) (top : Frame) (rest : List Frame) (next : Walk)
        → IsGoing root size s (top ∷ rest)
        → Turn kids s top rest next
        → IsGoing root size next next.stack
    IsGoing-Turn s top rest next h t = record {
      numbers = IsNumbered-Turn kids root size s top rest next (h.schedule.framed.0.1) h.numbers t;
      schedule = IsScheduled-Turn kids size closed s top rest next h.numbers.dfn_size h.schedule t;
    }

    walk_from-ends :
        (fuel : ℕ) (s : Walk) (stack : List Frame)
        → s.stack ≡ stack
        → IsGoing root size s stack
        → open_work kids size s.dfn + stack_work kids stack ≤ fuel
        → (t : Walk) × (walk_from succ fuel s ≡ some t) × IsGoing root size t []
    unfolding walk_from
    walk_from-ends zero s [] e h low = (s, rw e refl, h)
    walk_from-ends (suc fuel) s [] e h low = (s, rw e refl, h)
    walk_from-ends zero s (top ∷ rest) e h low = absurd (omega (arith, low))
    walk_from-ends (suc fuel) s (top ∷ rest) e h low =
        let (inside, marked) = h.schedule.framed.0 in
        let fits : (w : ℕ) → get_elem? (kids top.v) top.next ≡ some w → w < size =
          λ w at. get_elem?-All (λ w. w < size) (kids top.v) top.next w (closed top.v inside) at in
        let (next, run, turn) =
          visit-Turn kids succ s top rest (total top.v inside)
            (λ w at. (rw h.numbers.dfn_size (fits w at), rw h.numbers.parent_size (fits w at))) in
        let (t, ends, going) =
          walk_from-ends fuel next next.stack refl (IsGoing-Turn s top rest next h turn)
            (omega (arith, work-Turn kids size s top rest next h.numbers.dfn_size turn, low)) in
        (t, walk_from-step succ fuel s top rest e ∙ rw run ends, going)

-- The successors of each node are `kids`, and are nodes themselves.
pub record IsClosed (g : Graph) (kids : ℕ → List ℕ) : Type 0 where
  pub total : (v : ℕ) → v < node_count g + 1 → succ g v ≡ some (kids v)
  pub closed : (v : ℕ) → v < node_count g + 1 → All (λ w. w < node_count g + 1) (kids v)

start_walk-Marked : (root v : ℕ) → Marked (start_walk root).dfn v → v ≡ root
unfolding start_walk
start_walk-Marked root v (n, e) = ground (arith, e)

module _ (kids : ℕ → List ℕ) (root : ℕ) where
  start_walk-IsGoing :
      IsGoing kids root (root + 1) (start_walk root) (record { v = root; next = 0 } ∷ [])
  unfolding start_walk
  start_walk-IsGoing = record {
    numbers = record {
      dfn_size = refl;
      parent_size = refl;
      rooted = ground arith;
      numbered = λ v m e. (ground (arith, e), ground (arith, e));
      listed = λ i low. (ground (arith, low), ground (arith, low));
      reached = λ v p. rw (start_walk-Marked root v p) here;
      parented = λ i pos low. absurd (omega (arith, pos, low));
    };
    schedule = record {
      framed = ((omega arith, (0, ground arith)), tt);
      complete = λ v k w p at. inr (inl (sym (start_walk-Marked root v p), omega arith));
    };
  }

  open_work-none :
      (succ : ℕ → Option (List ℕ)) (size n : ℕ)
      → ((v : ℕ) → v < size → succ v ≡ some (kids v))
      → n ≤ size
      → open_work kids n (make size none) ≡ turns succ n
  unfolding turns
  open_work-none succ size zero total h = refl
  open_work-none succ size (suc n) total h =
      rw (total n (omega (arith, h)))
        (omega (arith, open_work-none succ size n total (omega (arith, h))))

  Reaches-Marked :
      (size : ℕ) (t : Walk) (v : ℕ)
      → IsGoing kids root size t []
      → Reaches kids root v
      → Marked t.dfn v
  Reaches-Marked size t v h here = (0, h.numbers.rooted)
  Reaches-Marked size t v h (edge u k w r at) =
      elim (h.schedule.complete u k w (Reaches-Marked size t u h r) at) [
        | inl m ↦ m
        | inr none_left ↦ elim none_left [ ]
      ]

turns_enough :
    (kids : ℕ → List ℕ) (succ : ℕ → Option (List ℕ)) (n : ℕ)
    → ((v : ℕ) → v < n + 1 → succ v ≡ some (kids v))
    → open_work kids (n + 1) (start_walk n).dfn + (suc (length (kids n) - 0) + 0)
      ≤ turns succ (n + 1)
unfolding start_walk
turns_enough kids succ n total = omega (
  arith,
  open_work-written kids (n + 1) n 0 (make (n + 1) none) (omega arith) refl,
  open_work-none kids n succ (n + 1) (n + 1) total (omega arith),
)

walk_ends :
    (g : Graph) (kids : ℕ → List ℕ)
    → IsClosed g kids
    → (t : Walk) × (walk g ≡ some t) × IsGoing kids (node_count g) (node_count g + 1) t []
unfolding walk start_walk
walk_ends g kids c =
    let n = node_count g in
    walk_from-ends kids (succ g) n (n + 1) c.total c.closed (turns (succ g) (n + 1)) (start_walk n)
      (record { v = n; next = 0 } ∷ []) refl (start_walk-IsGoing kids n)
      (turns_enough kids (succ g) n c.total)

-- The nodes that references lead to from the virtual root.
abbrev pub FromRoot : Graph → (ℕ → List ℕ) → ℕ → Type 0
FromRoot g kids v = Reaches kids (node_count g) v

-- The depth-first walk of Dominators ends without an index out of range, and has then given a
-- number to exactly the nodes that a path of references leads to from the virtual root; the
-- successors of every node are nodes.
pub walk-Reaches :
    (g : Graph) (kids : ℕ → List ℕ)
    → IsClosed g kids
    → (t : Walk) × (walk g ≡ some t) × ((v : ℕ) → Marked t.dfn v ↔ FromRoot g kids v)
walk-Reaches g kids c =
    let (t, run, h) = walk_ends g kids c in
    (
      t,
      run,
      λ v. (h.numbers.reached v, Reaches-Marked kids (node_count g) (node_count g + 1) t v h),
    )

-- The walk, on a graph where the successors of every node are nodes, returns a numbering: Vertex
-- and dfn are inverse to each other, the virtual root has number 0, every numbered node is
-- reachable, and every other node of Vertex is a successor of its parent, which has a lower
-- number.
pub walk-IsNumbered :
    (g : Graph) (kids : ℕ → List ℕ)
    → IsClosed g kids
    → (t : Walk) × (walk g ≡ some t)
      × IsNumbered kids (node_count g) (node_count g + 1) t.dfn t.parent t.vertex
walk-IsNumbered g kids c = let (t, run, h) = walk_ends g kids c in (t, run, h.numbers)
