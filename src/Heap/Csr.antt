-- ===== src/Heap/Csr.antt =====
-- buildCSR of heapdump/hprofx/graph.go, and Refs and Referrers, which read its slices.
mod Counts
pub mod Lists
use rootforge.Prelude.{
  ℕ, zero, suc, ◌+◌, Option, none, some, List, [], ◌∷◌, length, Slice, make, get, put, cut,
}
use rootforge.Hprof.Reader.{◌>>=◌}

-- The loop that counts, over what is left of `from`.
unfoldable pub count_edges : List ℕ → Slice ℕ → Option (Slice ℕ)
count_edges [] start = some start
count_edges (f ∷ from) start =
    get start (f + 1) >>= λ k. put start (f + 1) (k + 1) >>= λ next. count_edges from next

-- The loop that adds up, with the number of turns that are left.
unfoldable pub sum_counts : ℕ → ℕ → Slice ℕ → Option (Slice ℕ)
sum_counts zero i start = some start
sum_counts (suc n) i start = get start i >>= λ before.
    get start (i + 1) >>= λ k. put start (i + 1) (k + before) >>= λ next. sum_counts n (suc i) next

-- The loop that places the targets, over what is left of `from` and `to`.
unfoldable pub place_edges : List ℕ → List ℕ → Slice ℕ → Slice ℕ → Slice ℕ → Option (Slice ℕ)
place_edges [] to start fill adj = some adj
place_edges (f ∷ from) [] start fill adj = none
place_edges (f ∷ from) (t ∷ to) start fill adj = get start f >>= λ s. get fill f >>= λ k.
    put adj (s + k) t >>= λ adj'.
    put fill f (k + 1) >>= λ fill'. place_edges from to start fill' adj'

unfoldable pub build_csr : ℕ → List ℕ → List ℕ → Option (Slice ℕ × Slice ℕ)
build_csr n from to = count_edges from (make (n + 1) 0) >>= λ counts.
    sum_counts n 0 counts >>= λ start.
    place_edges from to start (make n 0) (make (length to) 0) >>= λ adj. some (start, adj)

-- Graph.Refs of the forward slices, and Graph.Referrers of the reverse ones.
unfoldable pub neighbours : Slice ℕ × Slice ℕ → ℕ → Option (List ℕ)
neighbours csr i = get csr.0 i >>= λ first. get csr.0 (i + 1) >>= λ last. cut csr.1 first last
