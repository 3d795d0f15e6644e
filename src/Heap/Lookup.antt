-- ===== src/Heap/Lookup.antt =====
-- The sorted index of identifiers in heapdump/hprofx/graph.go, and Lookup.
pub mod Search
pub mod Items
pub mod Finds
use rootforge.Prelude.{
  ℕ, zero, suc, ◌+◌, ◌/◌, ◌&&◌, Bool, true, false, Option, none, some, List, [], ◌∷◌, ◌++◌, map,
  ltb, leb, ◌==◌, if◌then◌else◌, Slice, from_list,
}
use rootforge.Sort.{sort_by}
use rootforge.Heap.Graph.{Graph, node_count}

-- The indices below n.
abbrev pub range : ℕ → List ℕ
range zero = []
range (suc n) = range n ++ (n ∷ [])

abbrev pub less_id : Graph → ℕ → ℕ → Bool
less_id g a b = ltb (g.ids.at a) (g.ids.at b)

-- The part of BuildGraph that sorts the indices by their identifiers.
unfoldable pub index_ids : Graph → Graph
index_ids g =
    let sorted = sort_by (less_id g) (range (node_count g)) in
    record g { sorted_idx = from_list sorted; sorted_ids = from_list (map g.ids.at sorted) }

-- sort.Search: the first index at which a test holds that holds from some index on. The range
-- shrinks at each turn, so its length is fuel enough.
unfoldable pub search_from : (ℕ → Bool) → ℕ → ℕ → ℕ → ℕ
search_from f zero i j = i
search_from f (suc fuel) i j = elim (ltb i j) [
  | false ↦ i
  | true ↦ elim (f ((i + j) / 2)) [
    | false ↦ search_from f fuel ((i + j) / 2 + 1) j
    | true ↦ search_from f fuel i ((i + j) / 2)
  ]
]

abbrev pub search : ℕ → (ℕ → Bool) → ℕ
search n f = search_from f n 0 n

-- Graph.Lookup; -1 is `none`. Every index is below the length of the slice.
unfoldable pub lookup : Graph → ℕ → Option ℕ
lookup g id =
    let i = search g.sorted_ids.len (λ i. leb id (g.sorted_ids.at i)) in
    if ltb i g.sorted_ids.len && g.sorted_ids.at i == id then some (g.sorted_idx.at i) else none
