-- ===== src/Heap/Edges/Connects.antt =====
-- BuildGraph of heapdump/hprofx/graph.go connects the nodes, and only those.
use rootforge.Prelude.{
  ℕ, ◌<◌, ◌≡◌, ◌↔◌, false, refl, sym, ap, ◌∙◌, Option, none, some, List, [], ◌∷◌, length, All,
  All-append, All-weaken, ltb, ◌==◌, if◌then◌else◌, Slice, Bool-cases, inl, inr, arith,
}
use rootforge.Sort.{sort_by}
use rootforge.Sort.Order.{sort_by-All}
use rootforge.Heap.Csr.Lists.{targets, build_csr-targets}
use rootforge.Heap.Graph.{Graph, node_count, refs, referrers}
use rootforge.Heap.Lookup.{lookup}
use rootforge.Heap.Walk.{succ}
use rootforge.Heap.Walk.Ends.{IsClosed}
use rootforge.Heap.Edges.{Edges, add_root, add_roots, connect}
use rootforge.Heap.Edges.Roots.{In, Names, add_roots-Names}

-- Lookup returns nodes.
abbrev pub FindsNodes : Graph → Type 0
FindsNodes g = (id v : ℕ) → lookup g id ≡ some v → v < node_count g

-- The edges join nodes.
pub record JoinsNodes (n : ℕ) (e : Edges) : Type 0 where
  pub paired : length e.src ≡ length e.dst
  pub from_nodes : All (λ f. f < n) e.src
  pub to_nodes : All (λ t. t < n) e.dst

pub targets-All : (P : ℕ → Type 0) (i : ℕ) (from to : List ℕ) → All P to → All P (targets i from to)
targets-All P i [] to h = tt
targets-All P i (f ∷ from) [] h = tt
targets-All P i (f ∷ from) (t ∷ to) h = elim (Bool-cases (f == i)) [
  | inl e ↦ rw e (h.0, targets-All P i from to h.1)
  | inr e ↦ rw e (targets-All P i from to h.1)
]

-- What the loop over RootIDs leaves alone.
record IsRooted (n : ℕ) (g next : Graph) : Type 0 where
  ids : next.ids ≡ g.ids
  forward : next.forward ≡ g.forward
  reverse : next.reverse ≡ g.reverse
  looks : (id : ℕ) → lookup next id ≡ lookup g id
  roots : All (λ r. r < n) next.roots

add_root-IsRooted :
    (n : ℕ) (g : Graph) (o : Option ℕ)
    → ((v : ℕ) → o ≡ some v → v < n)
    → All (λ r. r < n) g.roots
    → IsRooted n g (add_root g o)
unfolding lookup
add_root-IsRooted n g none h k = record {
  ids = refl;
  forward = refl;
  reverse = refl;
  looks = λ id. refl;
  roots = k;
}
add_root-IsRooted n g (some j) h k = elim (Bool-cases (g.root_set j)) [
  | inl e ↦
      rw e (record { ids = refl; forward = refl; reverse = refl; looks = λ id. refl; roots = k })
  | inr e ↦ rw e (record {
    ids = refl;
    forward = refl;
    reverse = refl;
    looks = λ id. refl;
    roots = All-append (λ r. r < n) g.roots (j ∷ []) k (h j refl, tt);
  })
]

add_roots-IsRooted :
    (n : ℕ) (g : Graph) (ids : List ℕ)
    → ((id v : ℕ) → lookup g id ≡ some v → v < n)
    → All (λ r. r < n) g.roots
    → IsRooted n g (add_roots g ids)
unfolding add_roots
add_roots-IsRooted n g [] h k = record {
  ids = refl;
  forward = refl;
  reverse = refl;
  looks = λ id. refl;
  roots = k;
}
add_roots-IsRooted n g (rid ∷ ids) h k =
    let one = add_root-IsRooted n g (lookup g rid) (h rid) k in
    let rest =
      add_roots-IsRooted n (add_root g (lookup g rid)) ids
        (λ id v e. h id v (sym (one.looks id) ∙ e)) one.roots in
    record {
      ids = rest.ids ∙ one.ids;
      forward = rest.forward ∙ one.forward;
      reverse = rest.reverse ∙ one.reverse;
      looks = λ id. rest.looks id ∙ one.looks id;
      roots = rest.roots;
    }

-- The successors of the nodes are the targets of their edges, and those of the virtual root are
-- the roots.
abbrev pub successors : Graph → Edges → ℕ → List ℕ
successors g e v = if v == node_count g then g.roots else targets v e.src e.dst

pub record IsConnected (g : Graph) (n : ℕ) (e : Edges) (root_ids : List ℕ) (next : Graph)
    : Type 0 where
  pub as_many : node_count next ≡ n
  pub forwards : (i : ℕ) → i < n → refs next i ≡ some (targets i e.src e.dst)
  pub backwards : (i : ℕ) → i < n → referrers next i ≡ some (targets i e.dst e.src)
  pub closed : IsClosed next (successors next e)
  pub named : (v : ℕ) → In v next.roots ↔ Names g root_ids v

connected :
    (g : Graph) (n : ℕ) (e : Edges) (root_ids : List ℕ) (next : Graph)
    → node_count next ≡ n
    → JoinsNodes n e
    → All (λ r. r < n) next.roots
    → ((i : ℕ) → i < n → refs next i ≡ some (targets i e.src e.dst))
    → ((i : ℕ) → i < n → referrers next i ≡ some (targets i e.dst e.src))
    → ((v : ℕ) → In v next.roots ↔ Names g root_ids v)
    → IsConnected g n e root_ids next
unfolding succ
connected g n e root_ids next same joins roots forwards backwards named = record {
  named = named;
  as_many = same;
  forwards = forwards;
  backwards = backwards;
  closed = record {
    total = λ v h. elim (Bool-cases (v == node_count next)) [
      | inl top ↦ rw top refl
      | inr node ↦ rw node (forwards v (ground (arith, same)))
    ];
    closed = λ v h. elim (Bool-cases (v == node_count next)) [
      | inl top ↦ rw top (All-weaken _ _ next.roots (λ r q. omega (arith, q, same)) roots)
      | inr node ↦ rw node (
          All-weaken _ _ (targets v e.src e.dst) (λ r q. omega (arith, q, same))
            (targets-All (λ t. t < n) v e.src e.dst joins.to_nodes))
    ];
  };
}

-- From edges that join nodes, in a graph without roots so far whose Lookup returns nodes,
-- BuildGraph makes one where Refs of a node lists the targets of its edges, Referrers lists their
-- sources, every successor, the roots too, is a node, and the roots are the nodes that RootIDs name.
pub connect-IsConnected :
    (g : Graph) (e : Edges) (root_ids : List ℕ)
    → FindsNodes g
    → g.roots ≡ []
    → ((i : ℕ) → g.root_set i ≡ false)
    → JoinsNodes (node_count g) e
    → (next : Graph) × (connect g e root_ids ≡ some next)
      × IsConnected g (node_count g) e root_ids next
unfolding connect lookup
connect-IsConnected g e root_ids finds fresh unset joins =
    let n = node_count g in
    let (forward, f, fs) = build_csr-targets n e.src e.dst joins.paired joins.from_nodes in
    let (reverse, r, rs) = build_csr-targets n e.dst e.src (sym joins.paired) joins.to_nodes in
    let start : Graph = record g { forward = forward; reverse = reverse } in
    let rooted = add_roots start root_ids in
    let k = add_roots-IsRooted n start root_ids (λ id v q. finds id v q) (rw fresh tt) in
    (
      record rooted { roots = sort_by ltb rooted.roots },
      rw (f, r) refl,
      connected g n e root_ids (record rooted { roots = sort_by ltb rooted.roots })
          (ap (λ (s : Slice ℕ). s.len) k.ids) joins
          (sort_by-All (λ r. r < n) ltb rooted.roots k.roots) (λ i h. rw k.forward (fs i h))
          (λ i h. rw k.reverse (rs i h)) (λ v. add_roots-Names start root_ids v fresh unset),
    )
