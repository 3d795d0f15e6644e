-- ===== src/Tests/Graphs.antt =====
-- Runs of buildCSR and Dominators on a small graph.
use rootforge.Prelude.{
  ℕ, zero, suc, ◌+◌, ◌%◌, ◌^◌, ◌<◌, ◌≡◌, ◌↔◌, refl, ap, Option, none, some, false, ◌≢◌, ◌⊎◌, ◌||◌,
  if◌then◌else◌, List, [], ◌∷◌, ◌++◌, map, All, ◌==◌, Slice, make, item, from_list, get, put, cut,
  arith,
}
use rootforge.Heap.Objects.Reads.{bytes_of}
use rootforge.Heap.Objects.RoundTrip.{write, obj_array}
use rootforge.Heap.Csr.{build_csr, neighbours}
use rootforge.Heap.Csr.Lists.{targets, build_csr-targets}
use rootforge.Heap.Graph.{Graph}
use rootforge.Heap.Walk.{Walk, walk, succ, walk_from, visit, look, discover, turns, start_walk}
use rootforge.Heap.Walk.Reach.{Marked}
use rootforge.Heap.Walk.Numbers.{IsNumbered}
use rootforge.Heap.Walk.Ends.{IsClosed, FromRoot, walk-Reaches, walk-IsNumbered}
use rootforge.Heap.Dominators.Fold.{IsTree, children}
use rootforge.Heap.Dominators.Retain.{start_size, retain-children}
use rootforge.Heap.Lookup.{lookup, index_ids}
use rootforge.Heap.Lookup.Finds.{lookup-Finds}
use rootforge.Heap.Edges.{Edges}
use rootforge.Heap.Edges.Connects.{JoinsNodes}
use rootforge.Heap.Dominators.{
  Dom, dominators, start_semi, settle_all, settle, scan_referrers, eval, compress, path_from,
  shorten, relabel, lower_semi, scan_root, join_bucket, empty_bucket, resolve_all, resolve, retain,
  own_sizes, own_size, fold_all, fold_into,
}

-- The edges 0 → 1, 0 → 2, 1 → 3 and 2 → 3.
abbrev sources : List ℕ
sources = 0 ∷ 0 ∷ 1 ∷ 2 ∷ []

abbrev sinks : List ℕ
sinks = 1 ∷ 2 ∷ 3 ∷ 3 ∷ []

abbrev diamond : Graph
diamond = record {
  ids = from_list (1 ∷ 2 ∷ 3 ∷ 4 ∷ []);
  class_of = make 4 0;
  size = from_list (16 ∷ 24 ∷ 32 ∷ 40 ∷ []);
  kind = make 4 0;
  offset = make 4 0;
  sorted_ids = from_list (1 ∷ 2 ∷ 3 ∷ 4 ∷ []);
  sorted_idx = from_list (0 ∷ 1 ∷ 2 ∷ 3 ∷ []);
  forward = (from_list (0 ∷ 2 ∷ 3 ∷ 4 ∷ 4 ∷ []), from_list (1 ∷ 2 ∷ 3 ∷ 3 ∷ []));
  reverse = (from_list (0 ∷ 0 ∷ 1 ∷ 2 ∷ 4 ∷ []), from_list (0 ∷ 0 ∷ 1 ∷ 2 ∷ []));
  roots = 0 ∷ [];
  root_set = λ i. i == 0;
}

abbrev kids : ℕ → List ℕ
kids zero = 1 ∷ 2 ∷ []
kids (suc zero) = 3 ∷ []
kids (suc (suc zero)) = 3 ∷ []
kids (suc (suc (suc zero))) = []
kids (suc (suc (suc (suc v)))) = 0 ∷ []

kids_total : (v : ℕ) → v < 5 → succ diamond v ≡ some (kids v)
unfolding succ neighbours get cut
kids_total zero h = refl
kids_total (suc zero) h = refl
kids_total (suc (suc zero)) h = refl
kids_total (suc (suc (suc zero))) h = refl
kids_total (suc (suc (suc (suc zero)))) h = refl
kids_total (suc (suc (suc (suc (suc v))))) h = absurd (omega (arith, h))

kids_closed : (v : ℕ) → All (λ w. w < 5) (kids v)
kids_closed zero = (omega arith, (omega arith, tt))
kids_closed (suc zero) = (omega arith, tt)
kids_closed (suc (suc zero)) = (omega arith, tt)
kids_closed (suc (suc (suc zero))) = tt
kids_closed (suc (suc (suc (suc v)))) = (omega arith, tt)

diamond-IsClosed : IsClosed diamond kids
diamond-IsClosed = record { total = kids_total; closed = λ v h. kids_closed v }

build_csr-targets_example :
    (csr : Slice ℕ × Slice ℕ) × (build_csr 4 sources sinks ≡ some csr)
    × ((i : ℕ) → i < 4 → neighbours csr i ≡ some (targets i sources sinks))
build_csr-targets_example =
    build_csr-targets 4 sources sinks refl
      (omega arith, (omega arith, (omega arith, (omega arith, tt))))

walk-Reaches_example :
    (t : Walk) × (walk diamond ≡ some t) × ((v : ℕ) → Marked t.dfn v ↔ FromRoot diamond kids v)
walk-Reaches_example = walk-Reaches diamond kids diamond-IsClosed

walk-IsNumbered_example :
    (t : Walk) × (walk diamond ≡ some t) × IsNumbered kids 4 5 t.dfn t.parent t.vertex
walk-IsNumbered_example = walk-IsNumbered diamond kids diamond-IsClosed

-- The dominators of the diamond, before the sizes are added up.
abbrev settled : Dom
settled = record {
  root = 4;
  idom = record { len = 5; at = λ v. if v == 0 || v == 4 then some 4 else some 0 };
  retained = make 5 0;
  vertex = from_list (4 ∷ 0 ∷ 1 ∷ 3 ∷ 2 ∷ []);
  dfn = record { len = 5; at = λ v. some (item (1 ∷ 2 ∷ 4 ∷ 3 ∷ 0 ∷ []) v) };
  parent = make 5 none;
  semi = make 5 0;
  label = make 5 0;
  ancestor = make 5 none;
  bhead = make 5 none;
  bnext = make 5 none;
  unreach = 0;
}

settled_numbers : (i : ℕ) → i < 5 → settled.dfn.at (settled.vertex.at i) ≡ some i
settled_numbers zero h = refl
settled_numbers (suc zero) h = refl
settled_numbers (suc (suc zero)) h = refl
settled_numbers (suc (suc (suc zero))) h = refl
settled_numbers (suc (suc (suc (suc zero)))) h = refl
settled_numbers (suc (suc (suc (suc (suc i))))) h = absurd (omega (arith, h))

settled_before :
    (i : ℕ)
    → 0 < i
    → i < 5
    → (j : ℕ) × (j < i) × (settled.idom.at (settled.vertex.at i) ≡ some (settled.vertex.at j))
settled_before zero h k = absurd (omega (arith, h))
settled_before (suc zero) h k = (0, omega arith, refl)
settled_before (suc (suc zero)) h k = (1, omega arith, refl)
settled_before (suc (suc (suc zero))) h k = (1, omega arith, refl)
settled_before (suc (suc (suc (suc zero)))) h k = (1, omega arith, refl)
settled_before (suc (suc (suc (suc (suc i))))) h k = absurd (omega (arith, k))

item_small : (i : ℕ) → item (4 ∷ 0 ∷ 1 ∷ 3 ∷ 2 ∷ []) i < 5
item_small zero = omega arith
item_small (suc zero) = omega arith
item_small (suc (suc zero)) = omega arith
item_small (suc (suc (suc zero))) = omega arith
item_small (suc (suc (suc (suc zero)))) = omega arith
item_small (suc (suc (suc (suc (suc i))))) = omega arith

settled-IsTree : IsTree 5 settled.vertex settled.idom
settled-IsTree = record {
  idom_size = refl;
  fits = λ i h. item_small i;
  distinct = λ i j h k e.
      ground
        (arith, settled_numbers i (omega (arith, h, k)), settled_numbers j k, ap settled.dfn.at e);
  before = settled_before;
}

item_int32 : (v : ℕ) → item (16 ∷ 24 ∷ 32 ∷ 40 ∷ []) v < 2 ^ 32
item_int32 zero = omega arith
item_int32 (suc zero) = omega arith
item_int32 (suc (suc zero)) = omega arith
item_int32 (suc (suc (suc zero))) = omega arith
item_int32 (suc (suc (suc (suc v)))) = omega arith

retain-children_example :
    (done : Dom) × (retain diamond settled ≡ some done)
    × ((v : ℕ)
        → done.retained.at v
          ≡ (start_size diamond settled v + children settled.vertex settled.idom 4 v done.retained)
            % 2 ^ 64)
retain-children_example =
    retain-children diamond settled
      (record {
        listed = omega arith;
        sized = refl;
        numbered = refl;
        room = refl;
        empty = λ v. refl;
        narrow = item_int32;
      })
      settled-IsTree

-- The diamond before its references are read.
abbrev unconnected : Graph
unconnected = record diamond {
  forward = (make 0 0, make 0 0);
  reverse = (make 0 0, make 0 0);
  roots = [];
  root_set = λ i. false;
}

abbrev diamond_edges : Edges
diamond_edges = record { src = sources; dst = sinks }

diamond-JoinsNodes : JoinsNodes 4 diamond_edges
diamond-JoinsNodes = record {
  paired = refl;
  from_nodes = (omega arith, (omega arith, (omega arith, (omega arith, tt))));
  to_nodes = (omega arith, (omega arith, (omega arith, (omega arith, tt))));
}

lookup-Finds_example :
    ((lookup (index_ids diamond) 3 ≡ none) × ((v : ℕ) → v < 4 → diamond.ids.at v ≢ 3))
    ⊎ ((v : ℕ) × (lookup (index_ids diamond) 3 ≡ some v) × (v < 4) × (diamond.ids.at v ≡ 3))
lookup-Finds_example = lookup-Finds diamond 3

-- A segment with an array of one object, the object 3, and the graph of the two.
abbrev array_bytes : List ℕ
array_bytes = 0x1C ∷ bytes_of 4 0 ++ (bytes_of 4 33 ++ write (obj_array 1 0 9 1 (bytes_of 8 3)) [])

abbrev pair : Graph
pair = record unconnected { ids = from_list (1 ∷ 3 ∷ []) }

abbrev array_edge : Edges
array_edge = record { src = 0 ∷ []; dst = 1 ∷ [] }

-- The whole computation.
abbrev facts : Option Dom → Option (List (Option ℕ) × List ℕ)
facts none = none
facts (some d) =
    some (map d.idom.at (0 ∷ 1 ∷ 2 ∷ 3 ∷ []), map d.retained.at (0 ∷ 1 ∷ 2 ∷ 3 ∷ 4 ∷ []))

dominators-facts :
    facts (dominators diamond)
    ≡ some (some 4 ∷ some 0 ∷ some 0 ∷ some 0 ∷ [], 112 ∷ 24 ∷ 32 ∷ 40 ∷ 112 ∷ [])
unfolding walk walk_from visit look discover succ neighbours get put cut turns start_walk dominators
    start_semi settle_all settle scan_referrers eval compress path_from shorten relabel lower_semi
    scan_root join_bucket empty_bucket resolve_all resolve retain own_sizes own_size fold_all
    fold_into
dominators-facts = refl
