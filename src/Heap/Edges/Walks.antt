-- ===== src/Heap/Edges/Walks.antt =====
-- From the objects and the references of a dump to the reachable nodes: BuildGraph of
-- heapdump/hprofx/graph.go, and the walk of Dominators in dom.go.
use rootforge.Prelude.{
  ℕ, zero, suc, ◌<◌, ◌≡◌, ◌↔◌, ◌⊎◌, some, false, true, List, [], ◌∷◌, ◌==◌, sym, ap, refl, inl, inr,
  Bool-cases, arith,
}
use rootforge.Hprof.Reader.{Reader}
use rootforge.Heap.Graph.{Graph, node_count}
use rootforge.Heap.Lookup.{index_ids}
use rootforge.Heap.Lookup.Finds.{lookup-Finds}
use rootforge.Heap.Walk.{Walk, get_elem?}
use rootforge.Heap.Walk.Reach.{Reaches, here, edge, get_elem?-All}
use rootforge.Heap.Walk.Ends.{FromRoot}
use rootforge.Heap.Edges.{Edges}
use rootforge.Heap.Edges.Connects.{FindsNodes, JoinsNodes, IsConnected, successors, targets-All}
use rootforge.Heap.Edges.Roots.{In, Names}
use rootforge.Heap.Csr.Lists.{targets}

pub index_ids-FindsNodes : (g : Graph) → FindsNodes (index_ids g)
index_ids-FindsNodes g id v found = elim (lookup-Finds g id) [
  | inl (absent, none_has) ↦ absurd (cc (found, absent))
  | inr (w, is, low, has) ↦ let same : w ≡ v = cc in (unfold index_ids in rw (sym same) low)
]

-- A path of the edges leads to the node from one that the identifiers name.
abbrev pub LedTo : Graph → Edges → List ℕ → ℕ → Type 0
LedTo g e root_ids v = (j : ℕ) × Names g root_ids j × Reaches (λ u. targets u e.src e.dst) j v

module _ (g : Graph) (e : Edges) (root_ids : List ℕ) (next : Graph)
    (c : IsConnected g (node_count g) e root_ids next) where
  abbrev top : ℕ
  top = node_count next

  In-get_elem? : (xs : List ℕ) (k w : ℕ) → get_elem? xs k ≡ some w → In w xs
  In-get_elem? [] k w h = absurd (cc h)
  In-get_elem? (x ∷ xs) zero w h = inl (cc h)
  In-get_elem? (x ∷ xs) (suc k) w h = inr (In-get_elem? xs k w h)

  get_elem?-In : (xs : List ℕ) (w : ℕ) → In w xs → (k : ℕ) × (get_elem? xs k ≡ some w)
  get_elem?-In [] w h = elim h [ ]
  get_elem?-In (x ∷ xs) w (inl same) = (0, ap some same)
  get_elem?-In (x ∷ xs) w (inr h) = let (k, is) = get_elem?-In xs w h in (suc k, is)

  walked-LedTo : (v : ℕ) → FromRoot next (successors next e) v → (v ≡ top) ⊎ LedTo g e root_ids v
  walked-LedTo v here = inl refl
  walked-LedTo v (edge u k w r at) = elim (Bool-cases (u == top)) [
    | inl is_top ↦
        let root : get_elem? next.roots k ≡ some w = rw is_top at at in
        inr (w, (c.named w).0 (In-get_elem? next.roots k w root), here)
    | inr node ↦
        let go : get_elem? (targets u e.src e.dst) k ≡ some w = rw node at at in
        elim (walked-LedTo u r) [
          | inl is_top ↦ absurd (ground (arith, is_top, node))
          | inr (j, named, path) ↦ inr (j, named, edge u k w path go)
        ]
  ]

  module _ (finds : FindsNodes g) (joins : JoinsNodes (node_count g) e) where
    led_below :
        (j v : ℕ) → j < node_count g → Reaches (λ u. targets u e.src e.dst) j v → v < node_count g
    led_below j v low here = low
    led_below j v low (edge u k w r at) =
        get_elem?-All (λ x. x < node_count g) (targets u e.src e.dst) k w
          (targets-All (λ x. x < node_count g) u e.src e.dst joins.to_nodes) at

    not_top : (u : ℕ) → u < node_count g → (u == top) ≡ false
    not_top u low = ground (arith, low, c.as_many)

    led-FromRoot :
        (j v : ℕ)
        → Names g root_ids j
        → Reaches (λ u. targets u e.src e.dst) j v
        → FromRoot next (successors next e) v
    led-FromRoot j v named here =
        let (k, is) = get_elem?-In next.roots j ((c.named j).1 named) in
        let self : (top == top) ≡ true = ground arith in edge top k j here (rw self is)
    led-FromRoot j v (rid, at_rid, found) (edge u k w r at) =
        edge u k w (led-FromRoot j u (rid, at_rid, found) r)
          (rw (not_top u (led_below j u (finds rid j found) r)) at)

    pub FromRoot-LedTo :
        (v : ℕ) → FromRoot next (successors next e) v ↔ ((v ≡ top) ⊎ LedTo g e root_ids v)
    FromRoot-LedTo v = (
      walked-LedTo v,
      λ h. elim h [
        | inl is_top ↦ rw is_top here
        | inr (j, named, path) ↦ led-FromRoot j v named path
      ],
    )
