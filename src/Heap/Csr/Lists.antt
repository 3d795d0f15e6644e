-- ===== src/Heap/Csr/Lists.antt =====
-- buildCSR of heapdump/hprofx/graph.go builds the lists that its readers cut out.
use rootforge.Prelude.{
  ℕ, zero, suc, ◌+◌, ◌<◌, ◌≤◌, ◌≡◌, ◌≢◌, false, refl, ap, ◌∙◌, some, List, [], ◌∷◌, length, All,
  arith, ◌==◌, if◌then◌else◌, Slice, make, get-lt, put-lt, written, Holds, cut-Holds, ltb,
  Bool-cases, inl, inr,
}
use rootforge.Heap.Csr.{count_edges, sum_counts, place_edges, build_csr, neighbours}
use rootforge.Heap.Csr.Counts.{
  count, count_below, IsCounted, IsSummed, IsStarts, count_below-length, count_below_mono,
  count_edges-IsCounted, sum_counts-IsSummed,
}

-- The targets of the edges that leave node i, in the order of the edges.
abbrev pub targets : ℕ → List ℕ → List ℕ → List ℕ
targets i [] to = []
targets i (f ∷ from) [] = []
targets i (f ∷ from) (t ∷ to) = if f == i then t ∷ targets i from to else targets i from to

length-targets :
    (i : ℕ) (from to : List ℕ) → length from ≡ length to → length (targets i from to) ≡ count i from
length-targets i [] to h = refl
length-targets i (f ∷ from) [] h = absurd (omega (arith, h))
length-targets i (f ∷ from) (t ∷ to) h = ground (arith, length-targets i from to (omega (arith, h)))

Holds-move : (s : Slice ℕ) (p q : ℕ) (xs : List ℕ) → p ≡ q → Holds s p xs → Holds s q xs
Holds-move s p q xs e h = rw e at h

-- The targets of distinct nodes have distinct places.
apart :
    (S : ℕ → ℕ) (c : ℕ → ℕ) (i j a b : ℕ)
    → ((i j : ℕ) → i < j → S i + c i ≤ S j)
    → i ≢ j
    → a < c i
    → b < c j
    → S i + a ≢ S j + b
apart S c i j a b mono ne ha hb same = elim (Bool-cases (ltb i j)) [
  | inl low ↦ omega (arith, mono i j (ground arith), ha, hb, same)
  | inr high ↦ omega (arith, mono j i (ground arith), ha, hb, same)
]

module _ (n : ℕ) (all : List ℕ) (start : Slice ℕ) (IsStart : IsStarts n all start) (room : ℕ) where
  -- Where the targets of node i go.
  abbrev place : ℕ → ℕ
  place i = count_below i all

  record HasRoom (from : List ℕ) (fill adj : Slice ℕ) : Type 0 where
    size : fill.len ≡ n
    wide : adj.len ≡ room
    left : (i : ℕ) → i < n → fill.at i + count i from ≤ count i all

  record IsPlaced (from to : List ℕ) (fill adj next : Slice ℕ) : Type 0 where
    wide : next.len ≡ room
    holds : (i : ℕ) → i < n → Holds next (place i + fill.at i) (targets i from to)
    keeps : (i j : ℕ) → i < n → j < fill.at i → next.at (place i + j) ≡ adj.at (place i + j)

  -- A place that has been written is not written again.
  past :
      (f i j : ℕ) (from : List ℕ) (fill adj : Slice ℕ)
      → HasRoom (f ∷ from) fill adj
      → f < n
      → i < n
      → j < fill.at i
      → ((place i + j) == (place f + fill.at f)) ≡ false
  past f i j from fill adj r hf hi hj = elim (Bool-cases (f == i)) [
    | inl same ↦ ground arith
    | inr other ↦
        let ne =
          apart place (λ i. count i all) i f j (fill.at f) (λ i j. count_below_mono i j all)
            (ground (arith, other)) (omega (arith, r.left i hi, hj))
            (ground (arith, r.left f hf)) in
        ground arith
  ]

  place_edges-IsPlaced :
      (from to : List ℕ) (fill adj : Slice ℕ)
      → length from ≡ length to
      → All (λ f. f < n) from
      → ((i : ℕ) → i < n → place i + count i all ≤ room)
      → HasRoom from fill adj
      → (next : Slice ℕ) × (place_edges from to start fill adj ≡ some next)
        × IsPlaced from to fill adj next
  unfolding place_edges
  place_edges-IsPlaced [] to fill adj e h w r =
      (adj, refl, record { wide = r.wide; holds = λ i k. tt; keeps = λ i j k l. refl })
  place_edges-IsPlaced (f ∷ from) [] fill adj e h w r = absurd (omega (arith, e))
  place_edges-IsPlaced (f ∷ from) (t ∷ to) fill adj e h w r =
      let p = place f + fill.at f in
      let adj' = written adj p t in
      let fill' = written fill f (fill.at f + 1) in
      let (next, run, s) =
        place_edges-IsPlaced from to fill' adj' (omega (arith, e)) h.1 w
          (record { size = r.size; wide = r.wide; left = λ i k. ground (arith, r.left i k) }) in
      (
        next,
        rw
            (
              get-lt start f (omega (arith, IsStart.size, h.0)),
              IsStart.starts f (omega (arith, h.0)),
              get-lt fill f (omega (arith, r.size, h.0)),
              put-lt adj p t (ground (arith, r.left f h.0, r.wide, w f h.0)),
              put-lt fill f (fill.at f + 1) (omega (arith, r.size, h.0)),
            )
            run,
        record {
          wide = s.wide;
          holds = λ i k. elim (Bool-cases (f == i)) [
            | inl same ↦ rw same (
              ground (arith, same, s.keeps i (fill.at i) k (ground arith)),
              Holds-move next _ _ _ (ground arith) (s.holds i k),
            )
            | inr other ↦ rw other (Holds-move next _ _ _ (ground arith) (s.holds i k))
          ];
          keeps = λ i j k l.
              ground (arith, past f i j from fill adj r h.0 k l, s.keeps i j k (ground arith));
        },
      )

place_sums :
    (n : ℕ) (from : List ℕ)
    → All (λ f. f < n) from
    → (counts start : Slice ℕ) × (count_edges from (make (n + 1) 0) ≡ some counts)
      × (sum_counts n 0 counts ≡ some start)
      × IsStarts n from start
place_sums n from h =
    let (counts, run, c) = count_edges-IsCounted n from (make (n + 1) 0) refl h in
    let (start, sum, s) = sum_counts-IsSummed n 0 counts (omega (arith, c.size)) in
    (
      counts,
      start,
      run,
      sum,
      record {
        size = s.size ∙ c.size;
        starts = go counts start c s;
        ends = λ i k. next counts start c s i k (go counts start c s i (omega (arith, k)));
      },
    )
  where
    next :
        (counts start : Slice ℕ)
        → IsCounted n from (make (n + 1) 0) counts
        → IsSummed 0 n counts start
        → (i : ℕ) → i < n
        → start.at i ≡ count_below i from
        → start.at (i + 1) ≡ count_below i from + count i from
    next counts start c s i k e =
        omega (arith, s.summed i (omega arith) (omega (arith, k)), c.counted i k, e)

    go :
        (counts start : Slice ℕ)
        → IsCounted n from (make (n + 1) 0) counts
        → IsSummed 0 n counts start
        → (i : ℕ) → i ≤ n
        → start.at i ≡ count_below i from
    go counts start c s zero k = omega (arith, s.before 0 (omega arith), c.first)
    go counts start c s (suc i) k =
        ap start.at {x = suc i} {y = i + 1} (omega arith)
        ∙ next counts start c s i (omega (arith, k)) (go counts start c s i (omega (arith, k)))

fits :
    (n i : ℕ) (from to : List ℕ)
    → i < n
    → All (λ f. f < n) from
    → length from ≡ length to
    → count_below i from + count i from ≤ length to
fits n i from to k h e = omega (arith, count_below_mono i n from k, count_below-length n from h, e)

-- buildCSR, on edges from nodes below n, returns without an index out of range, and what Refs cuts
-- out for a node is the list of the targets of its edges, in the order of the edges.
pub build_csr-targets :
    (n : ℕ) (from to : List ℕ)
    → length from ≡ length to
    → All (λ f. f < n) from
    → (csr : Slice ℕ × Slice ℕ) × (build_csr n from to ≡ some csr)
      × ((i : ℕ) → i < n → neighbours csr i ≡ some (targets i from to))
unfolding build_csr neighbours
build_csr-targets n from to e h =
    let (counts, start, run, sum, IsStart) = place_sums n from h in
    let (adj, place, p) =
      place_edges-IsPlaced n from start IsStart (length to) from to (make n 0) (make (length to) 0)
        e h (λ i k. fits n i from to k h e)
        (record { size = refl; wide = refl; left = λ i k. omega arith }) in
    (
      (start, adj),
      rw (run, sum, place) refl,
      λ i k.
          rw
            (
              get-lt start i (omega (arith, IsStart.size, k)),
              get-lt start (i + 1) (omega (arith, IsStart.size, k)),
            )
            (cut-Holds adj (start.at i) (start.at (i + 1)) (targets i from to)
              (Holds-move adj _ _ _ (omega (arith, IsStart.starts i (omega (arith, k))))
                (p.holds i k))
              (omega (
                arith,
                IsStart.starts i (omega (arith, k)),
                IsStart.ends i k,
                length-targets i from to e,
              ))
              (omega (arith, IsStart.ends i k, fits n i from to k h e, p.wide))),
    )
