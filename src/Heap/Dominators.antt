-- ===== src/Heap/Dominators.antt =====
-- Lengauer and Tarjan's dominators in heapdump/hprofx/dom.go, after the depth-first walk.
pub mod Fold
pub mod Retain
use rootforge.Prelude.{
  ℕ, zero, suc, ◌+◌, ◌-◌, ◌%◌, ◌^◌, Bool, true, false, Option, none, some, List, [], ◌∷◌, ltb, ◌==◌,
  if◌then◌else◌, Slice, make, get, put,
}
use rootforge.Hprof.Reader.{◌>>=◌}
use rootforge.Heap.Graph.{Graph, node_count, referrers}
use rootforge.Heap.Walk.{Walk, walk}

pub record Dom : Type 0 where
  pub root : ℕ
  pub idom : Slice (Option ℕ)
  pub retained : Slice ℕ
  pub vertex : Slice ℕ
  pub dfn : Slice (Option ℕ)
  pub parent : Slice (Option ℕ)
  pub semi : Slice ℕ
  pub label : Slice ℕ
  pub ancestor : Slice (Option ℕ)
  pub bhead : Slice (Option ℕ)
  pub bnext : Slice (Option ℕ)
  pub unreach : ℕ

-- The loop of compress that collects the path, the last node first.
unfoldable pub path_from : ℕ → Slice (Option ℕ) → ℕ → List ℕ → Option (List ℕ)
path_from zero ancestor u path = none
path_from (suc fuel) ancestor u path = get ancestor u >>= λ a. a >>= λ a'. get ancestor a' >>= λ b.
    elim b [ none ↦ some path | some c ↦ path_from fuel ancestor a' (u ∷ path) ]

-- The label of x becomes that of its ancestor, if its semidominator is lower.
unfoldable pub relabel : Slice ℕ → Slice ℕ → ℕ → ℕ → Option (Slice ℕ)
relabel semi label x a = get label a >>= λ la. get label x >>= λ lx.
    get semi la >>= λ sa. get semi lx >>= λ sx. if ltb sa sx then put label x la else some label

-- The loop of compress over the path.
unfoldable pub shorten : List ℕ → Dom → Option Dom
shorten [] d = some d
shorten (x ∷ path) d = get d.ancestor x >>= λ a. a >>= λ a'.
    relabel d.semi d.label x a' >>= λ label. get d.ancestor a' >>= λ b.
    put d.ancestor x b >>= λ ancestor.
    shorten path (record d { label = label; ancestor = ancestor })

-- Dom.compress. The numbers fall along the ancestors, so the length of Vertex is fuel enough.
unfoldable pub compress : Dom → ℕ → Option Dom
compress d v = path_from d.vertex.len d.ancestor v [] >>= λ path. shorten path d

-- Dom.eval, which also changes the forest.
unfoldable pub eval : Dom → ℕ → Option (ℕ × Dom)
eval d v = get d.ancestor v >>= λ a. elim a [
  | none ↦ some (v, d)
  | some b ↦ compress d v >>= λ d'. get d'.label v >>= λ l. some (l, d')
]

-- The semidominator of w becomes that of u, if it is lower.
unfoldable pub lower_semi : Dom → ℕ → ℕ → Option Dom
lower_semi d w u = get d.semi u >>= λ su. get d.semi w >>= λ sw.
    if ltb su sw then (put d.semi w su >>= λ semi. some (record d { semi = semi })) else some d

-- The loop over the predecessors of w; an unreachable one contributes nothing.
unfoldable pub scan_referrers : Dom → ℕ → List ℕ → Option Dom
scan_referrers d w [] = some d
scan_referrers d w (v ∷ preds) = get d.dfn v >>= λ n. elim n [
  | none ↦ scan_referrers d w preds
  | some k ↦ eval d v >>= λ r. lower_semi r.1 w r.0 >>= λ next. scan_referrers next w preds
]

unfoldable pub scan_root : Graph → Dom → ℕ → Option Dom
scan_root g d w = if g.root_set w then lower_semi d w d.root else some d

-- w joins the bucket of its semidominator.
unfoldable pub join_bucket : Dom → ℕ → Option Dom
join_bucket d w = get d.semi w >>= λ s. get d.vertex s >>= λ b. get d.bhead b >>= λ head.
    put d.bnext w head >>= λ bnext.
    put d.bhead b (some w) >>= λ bhead. some (record d { bnext = bnext; bhead = bhead })

-- The loop over the bucket of p. Each node joins one bucket, so the length of Vertex is fuel
-- enough.
unfoldable pub empty_bucket : ℕ → Dom → ℕ → Option ℕ → Option Dom
empty_bucket fuel d p none = some d
empty_bucket zero d p (some v) = none
empty_bucket (suc fuel) d p (some v) = eval d v >>= λ r. get r.1.semi r.0 >>= λ su.
    get r.1.semi v >>= λ sv. put r.1.idom v (some (if ltb su sv then r.0 else p)) >>= λ idom.
    get r.1.bnext v >>= λ next. empty_bucket fuel (record r.1 { idom = idom }) p next

-- One turn of the main loop, on w.
unfoldable pub settle : Graph → Dom → ℕ → Option Dom
settle g d w = referrers g w >>= λ preds. scan_referrers d w preds >>= λ d1.
    scan_root g d1 w >>= λ d2. join_bucket d2 w >>= λ d3. get d3.parent w >>= λ up.
    put d3.ancestor w up >>= λ ancestor. up >>= λ p. get d3.bhead p >>= λ head.
    empty_bucket d3.vertex.len (record d3 { ancestor = ancestor }) p head >>= λ d4.
    put d4.bhead p none >>= λ bhead. some (record d4 { bhead = bhead })

-- The main loop, for the indices of Vertex from i down to 1.
unfoldable pub settle_all : Graph → ℕ → Dom → Option Dom
settle_all g zero d = some d
settle_all g (suc i) d = get d.vertex (suc i) >>= λ w. settle g d w >>= λ next. settle_all g i next

abbrev pub is_node : Option ℕ → ℕ → Bool
is_node none v = false
is_node (some u) v = u == v

-- The dominator of w, with semidominator b, if it is not u, is that of u.
unfoldable pub resolve : Dom → ℕ → Option ℕ → ℕ → Option Dom
resolve d w u b =
    if is_node u b
    then some d
    else (u >>= λ u'.
        get d.idom u' >>= λ x. put d.idom w x >>= λ idom. some (record d { idom = idom }))

-- The loop of the explicit dominators, for the n indices of Vertex from i on.
unfoldable pub resolve_all : ℕ → ℕ → Dom → Option Dom
resolve_all zero i d = some d
resolve_all (suc n) i d = get d.vertex i >>= λ w. get d.idom w >>= λ u. get d.semi w >>= λ s.
    get d.vertex s >>= λ b. resolve d w u b >>= λ next. resolve_all n (suc i) next

-- int64 of the 32 bits of an int32, and the sum of two int64, as their 64 bits.
abbrev pub widen : ℕ → ℕ
widen x = if ltb x (2 ^ 31) then x else x + (2 ^ 64 - 2 ^ 32)

abbrev pub add_int64 : ℕ → ℕ → ℕ
add_int64 a b = (a + b) % 2 ^ 64

-- A node retains its own size if it is reachable.
unfoldable pub own_size : Graph → Dom → ℕ → Option Dom
own_size g d i = get d.dfn i >>= λ n. get g.size i >>= λ size. elim n [
  | none ↦ some (record d { unreach = add_int64 d.unreach (widen size) })
  | some k ↦ put d.retained i (widen size) >>= λ retained. some (record d { retained = retained })
]

-- The loop over the n nodes from i on.
unfoldable pub own_sizes : Graph → ℕ → ℕ → Dom → Option Dom
own_sizes g zero i d = some d
own_sizes g (suc n) i d = own_size g d i >>= λ next. own_sizes g n (suc i) next

-- w folds into its dominator.
unfoldable pub fold_into : Slice (Option ℕ) → Slice ℕ → ℕ → Option ℕ → Option (Slice ℕ)
fold_into idom retained w none = some retained
fold_into idom retained w (some p) =
    if p == w
    then some retained
    else (get retained p >>= λ rp. get retained w >>= λ rw'. put retained p (add_int64 rp rw'))

-- The loop that folds, for the indices of Vertex from i down to 1.
unfoldable pub fold_all : Slice ℕ → Slice (Option ℕ) → ℕ → Slice ℕ → Option (Slice ℕ)
fold_all vertex idom zero retained = some retained
fold_all vertex idom (suc i) retained = get vertex (suc i) >>= λ w.
    get idom w >>= λ p. fold_into idom retained w p >>= λ next. fold_all vertex idom i next

-- The retained sizes.
unfoldable pub retain : Graph → Dom → Option Dom
retain g d = own_sizes g (node_count g) 0 d >>= λ sized.
    fold_all sized.vertex sized.idom (sized.vertex.len - 1) sized.retained >>= λ retained.
    some (record sized { retained = retained })

-- The loop that starts semi, for the n indices of Vertex from i on.
unfoldable pub start_semi : ℕ → ℕ → Slice ℕ → Slice ℕ → Option (Slice ℕ)
start_semi zero i vertex semi = some semi
start_semi (suc n) i vertex semi =
    get vertex i >>= λ v. put semi v i >>= λ next. start_semi n (suc i) vertex next

abbrev pub identity : ℕ → Slice ℕ
identity n = record { len = n; at = λ i. i }

abbrev pub start_dom : ℕ → Walk → Slice ℕ → Dom
start_dom n t semi = record {
  root = n;
  idom = make (n + 1) none;
  retained = make (n + 1) 0;
  vertex = t.vertex;
  dfn = t.dfn;
  parent = t.parent;
  semi = semi;
  label = identity (n + 1);
  ancestor = make (n + 1) none;
  bhead = make (n + 1) none;
  bnext = make (n + 1) none;
  unreach = 0;
}

-- Dominators; the field Unreach of the graph, which it also writes, is in the result.
unfoldable pub dominators : Graph → Option Dom
dominators g = walk g >>= λ t.
    start_semi t.vertex.len 0 t.vertex (make (node_count g + 1) 0) >>= λ semi.
    settle_all g (t.vertex.len - 1) (start_dom (node_count g) t semi) >>= λ d1.
    resolve_all (d1.vertex.len - 1) 1 d1 >>= λ d2.
    put d2.idom d2.root (some d2.root) >>= λ idom. retain g (record d2 { idom = idom })

-- Dom.Reachable.
abbrev pub reachable : Dom → ℕ → Option Bool
reachable d i = get d.dfn i >>= λ n. some (elim n [ none ↦ false | some k ↦ true ])

-- The loop of Dom.DomChain, with the number of dominators it may still add.
unfoldable pub chain_from : Dom → ℕ → Option ℕ → Option (List ℕ)
chain_from d zero v = some []
chain_from d (suc max) none = some []
chain_from d (suc max) (some v) = elim (v == d.root) [
  | true ↦ some []
  | false ↦ get d.idom v >>= λ u. chain_from d max u >>= λ rest. some (v ∷ rest)
]

unfoldable pub dom_chain : Dom → ℕ → ℕ → Option (List ℕ)
dom_chain d i max = get d.idom i >>= λ v. chain_from d max v
