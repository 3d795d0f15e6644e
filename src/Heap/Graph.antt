-- ===== src/Heap/Graph.antt =====
-- The Graph of heapdump/hprofx/graph.go, without the file and the Meta.
use rootforge.Prelude.{ℕ, Bool, Option, List, Slice}
use rootforge.Heap.Csr.{neighbours}

-- An int32 is kept as its 32 bits, an int64 as its 64 bits.
pub record Graph : Type 0 where
  pub ids : Slice ℕ
  pub class_of : Slice ℕ
  pub size : Slice ℕ
  pub kind : Slice ℕ
  pub offset : Slice ℕ
  pub sorted_ids : Slice ℕ
  pub sorted_idx : Slice ℕ
  pub forward : Slice ℕ × Slice ℕ
  pub reverse : Slice ℕ × Slice ℕ
  pub roots : List ℕ
  pub root_set : ℕ → Bool

-- Graph.N, Graph.Refs and Graph.Referrers.
abbrev pub node_count : Graph → ℕ
node_count g = g.ids.len

abbrev pub refs : Graph → ℕ → Option (List ℕ)
refs g i = neighbours g.forward i

abbrev pub referrers : Graph → ℕ → Option (List ℕ)
referrers g i = neighbours g.reverse i
