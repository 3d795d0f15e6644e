-- ===== src/Heap/Csr/Counts.antt =====
-- The first two loops of buildCSR: where the targets of each node go.
use rootforge.Prelude.{
  ℕ, zero, suc, ◌+◌, ◌<◌, ◌≤◌, ◌≡◌, refl, some, List, [], ◌∷◌, length, All, arith, ◌==◌,
  if◌then◌else◌, Slice, get-lt, put-lt, written, ltb, Bool-cases, inl, inr, ==_iff,
}
use rootforge.Heap.Csr.{count_edges, sum_counts}

-- How many edges leave node i.
abbrev pub count : ℕ → List ℕ → ℕ
count i [] = 0
count i (f ∷ from) = if f == i then suc (count i from) else count i from

-- How many leave the nodes below i.
abbrev pub count_below : ℕ → List ℕ → ℕ
count_below zero from = 0
count_below (suc i) from = count_below i from + count i from

pub record IsCounted (n : ℕ) (from : List ℕ) (start counts : Slice ℕ) : Type 0 where
  pub size : counts.len ≡ n + 1
  pub first : counts.at 0 ≡ start.at 0
  pub counted : (i : ℕ) → i < n → counts.at (i + 1) ≡ start.at (i + 1) + count i from

pub count_edges-IsCounted :
    (n : ℕ) (from : List ℕ) (start : Slice ℕ)
    → start.len ≡ n + 1
    → All (λ f. f < n) from
    → (counts : Slice ℕ) × (count_edges from start ≡ some counts) × IsCounted n from start counts
unfolding count_edges
count_edges-IsCounted n [] start e h =
    (start, refl, record { size = e; first = refl; counted = λ i k. omega arith })
count_edges-IsCounted n (f ∷ from) start e h =
    let next = written start (f + 1) (start.at (f + 1) + 1) in
    let (counts, run, c) = count_edges-IsCounted n from next e h.1 in
    (
      counts,
      rw
          (
            get-lt start (f + 1) (omega (arith, e, h.0)),
            put-lt start (f + 1) (start.at (f + 1) + 1) (omega (arith, e, h.0)),
          )
          run,
      record {
        size = c.size;
        first = ground (arith, c.first);
        counted = λ i k. ground (arith, c.counted i k);
      },
    )

pub record IsSummed (i n : ℕ) (counts sums : Slice ℕ) : Type 0 where
  pub size : sums.len ≡ counts.len
  pub before : (j : ℕ) → j ≤ i → sums.at j ≡ counts.at j
  pub summed : (j : ℕ) → i ≤ j → j < i + n → sums.at (j + 1) ≡ sums.at j + counts.at (j + 1)

pub sum_counts-IsSummed :
    (n i : ℕ) (counts : Slice ℕ)
    → i + n < counts.len
    → (sums : Slice ℕ) × (sum_counts n i counts ≡ some sums) × IsSummed i n counts sums
unfolding sum_counts
sum_counts-IsSummed zero i counts h = (
  counts,
  refl,
  record {
    size = refl;
    before = λ j k. refl;
    summed = λ j low high. absurd (omega (arith, low, high));
  },
)
sum_counts-IsSummed (suc n) i counts h =
    let next = written counts (i + 1) (counts.at (i + 1) + counts.at i) in
    let (sums, run, s) = sum_counts-IsSummed n (suc i) next (omega (arith, h)) in
    (
      sums,
      rw
          (
            get-lt counts i (omega (arith, h)),
            get-lt counts (i + 1) (omega (arith, h)),
            put-lt counts (i + 1) (counts.at (i + 1) + counts.at i) (omega (arith, h)),
          )
          run,
      record {
        size = s.size;
        before = λ j k. ground (arith, s.before j (omega (arith, k)));
        summed = λ j low high. elim (Bool-cases (j == i)) [
          | inl same ↦
              ground (arith, same, s.before (j + 1) (ground arith), s.before j (ground arith))
          | inr other ↦ ground (arith, other, s.summed j (ground arith) (omega (arith, high)))
        ];
      },
    )

-- The targets of the nodes below i come before those of node i.
pub record IsStarts (n : ℕ) (from : List ℕ) (start : Slice ℕ) : Type 0 where
  pub size : start.len ≡ n + 1
  pub starts : (i : ℕ) → i ≤ n → start.at i ≡ count_below i from
  pub ends : (i : ℕ) → i < n → start.at (i + 1) ≡ count_below i from + count i from

count_below-nil : (i : ℕ) → count_below i [] ≡ 0
count_below-nil zero = refl
count_below-nil (suc i) = omega (arith, count_below-nil i)

count_below-cons :
    (i f : ℕ) (from : List ℕ)
    → count_below i (f ∷ from) ≡ (if ltb f i then suc (count_below i from) else count_below i from)
count_below-cons zero f from = ground arith
count_below-cons (suc i) f from = ground (arith, count_below-cons i f from)

pub count_below-length :
    (n : ℕ) (from : List ℕ) → All (λ f. f < n) from → count_below n from ≡ length from
count_below-length n [] h = count_below-nil n
count_below-length n (f ∷ from) h =
    ground (arith, count_below-cons n f from, count_below-length n from h.1, h.0)

pub count_below_mono :
    (i j : ℕ) (from : List ℕ) → i < j → count_below i from + count i from ≤ count_below j from
count_below_mono i zero from h = absurd (omega (arith, h))
count_below_mono i (suc j) from h = elim (Bool-cases (i == j)) [
  | inl same ↦ rw ((==_iff i j).0 same) (omega arith)
  | inr other ↦ omega (arith, count_below_mono i j from (ground arith))
]
