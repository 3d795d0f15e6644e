-- ===== src/Heap/Walk.antt =====
-- The depth-first walk of Dominators in heapdump/hprofx/dom.go. The index -1 is `none`.
pub mod Turns
pub mod Reach
pub mod Numbers
pub mod Work
pub mod Ends
use rootforge.Prelude.{
  ℕ, zero, suc, ◌+◌, Option, none, some, List, [], ◌∷◌, length, ◌==◌, if◌then◌else◌, Slice, make,
  append, get, put,
}
use rootforge.Hprof.Reader.{◌>>=◌}
use rootforge.Heap.Graph.{Graph, node_count, refs}

-- A node, and the index of its next successor.
pub record Frame : Type 0 where
  pub v : ℕ
  pub next : ℕ

-- The top of the stack is the first frame.
pub record Walk : Type 0 where
  pub dfn : Slice (Option ℕ)
  pub parent : Slice (Option ℕ)
  pub vertex : Slice ℕ
  pub stack : List Frame

-- The virtual root fans out to every GC root.
unfoldable pub succ : Graph → ℕ → Option (List ℕ)
succ g v = if v == node_count g then some g.roots else refs g v

-- The item at an index, if it is below the length.
abbrev pub get_elem? : List ℕ → ℕ → Option ℕ
get_elem? [] i = none
get_elem? (x ∷ xs) zero = some x
get_elem? (x ∷ xs) (suc i) = get_elem? xs i

-- The frame moves on, and a node that has no number yet takes the next one.
unfoldable pub discover : Walk → Frame → List Frame → ℕ → Option ℕ → Option Walk
discover s top rest w (some n) =
    some (record s { stack = record top { next = top.next + 1 } ∷ rest })
discover s top rest w none = put s.dfn w (some s.vertex.len) >>= λ dfn.
    put s.parent w (some top.v) >>= λ parent. some (record {
      dfn = dfn;
      parent = parent;
      vertex = append s.vertex w;
      stack = record { v = w; next = 0 } ∷ record top { next = top.next + 1 } ∷ rest;
    })

-- A frame with no successor left is dropped.
unfoldable pub look : Walk → Frame → List Frame → Option ℕ → Option Walk
look s top rest none = some (record s { stack = rest })
look s top rest (some w) = get s.dfn w >>= λ n. discover s top rest w n

-- One turn of the loop, on the top of the stack.
unfoldable pub visit : (ℕ → Option (List ℕ)) → Walk → Frame → List Frame → Option Walk
visit succ s top rest = succ top.v >>= λ kids. look s top rest (get_elem? kids top.next)

-- The loop, with a bound on its turns.
unfoldable pub walk_from : (ℕ → Option (List ℕ)) → ℕ → Walk → Option Walk
walk_from succ zero s = elim s.stack [ [] ↦ some s | top ∷ rest ↦ none ]
walk_from succ (suc fuel) s = elim s.stack [
  | [] ↦ some s
  | top ∷ rest ↦ visit succ s top rest >>= λ next. walk_from succ fuel next
]

abbrev pub degree : Option (List ℕ) → ℕ
degree none = 0
degree (some kids) = length kids

-- One turn for each of the first n nodes, and for each edge that leaves it.
unfoldable pub turns : (ℕ → Option (List ℕ)) → ℕ → ℕ
turns succ zero = 0
turns succ (suc n) = turns succ n + suc (degree (succ n))

unfoldable pub start_walk : ℕ → Walk
start_walk n = record {
  dfn = record { len = n + 1; at = λ v. if v == n then some 0 else none };
  parent = make (n + 1) none;
  vertex = append (make 0 0) n;
  stack = record { v = n; next = 0 } ∷ [];
}

-- The walk from the virtual root.
unfoldable pub walk : Graph → Option Walk
walk g = walk_from (succ g) (turns (succ g) (node_count g + 1)) (start_walk (node_count g))
