-- ===== src/Heap/Edges/Roots.antt =====
-- The roots that BuildGraph of heapdump/hprofx/graph.go makes of RootIDs.
use rootforge.Prelude.{
  ℕ, ◌≡◌, ◌↔◌, refl, sym, ap, ◌∙◌, ◌⊎◌, inl, inr, Option, none, some, true, false, List, [], ◌∷◌,
  ◌++◌, ltb, ◌==◌, ==_iff, Bool-cases,
}
use mathlib.Core.Bool.{false≢true}
use rootforge.Sort.{sort_by, insert_by}
use rootforge.Heap.Graph.{Graph}
use rootforge.Heap.Lookup.{lookup}
use rootforge.Heap.Edges.{add_root, add_roots}

-- The list holds the number.
abbrev pub In : ℕ → List ℕ → Type 0
In v [] = ⊥
In v (x ∷ xs) = (x ≡ v) ⊎ In v xs

In-append : (v : ℕ) (xs ys : List ℕ) → In v (xs ++ ys) → In v xs ⊎ In v ys
In-append v [] ys h = inr h
In-append v (x ∷ xs) ys (inl e) = inl (inl e)
In-append v (x ∷ xs) ys (inr h) = elim (In-append v xs ys h) [ inl l ↦ inl (inr l) | inr r ↦ inr r ]

In-left : (v : ℕ) (xs ys : List ℕ) → In v xs → In v (xs ++ ys)
In-left v [] ys h = elim h [ ]
In-left v (x ∷ xs) ys (inl e) = inl e
In-left v (x ∷ xs) ys (inr h) = inr (In-left v xs ys h)

In-last : (v : ℕ) (xs : List ℕ) → In v (xs ++ (v ∷ []))
In-last v [] = inl refl
In-last v (x ∷ xs) = inr (In-last v xs)

In-insert_by : (v x : ℕ) (xs : List ℕ) → In v (insert_by ltb x xs) ↔ ((x ≡ v) ⊎ In v xs)
unfolding insert_by
In-insert_by v x [] = (λ h. h, λ h. h)
In-insert_by v x (y ∷ ys) = elim (Bool-cases (ltb x y)) [
  | inl e ↦ rw e (λ h. h, λ h. h)
  | inr e ↦
      let rest = In-insert_by v x ys in
      rw e (
        λ h. elim h [
          | inl at ↦ inr (inl at)
          | inr more ↦ elim (rest.0 more) [ inl new ↦ inl new | inr old ↦ inr (inr old) ]
        ],
        λ h. elim h [
          | inl new ↦ inr (rest.1 (inl new))
          | inr (inl at) ↦ inl at
          | inr (inr old) ↦ inr (rest.1 (inr old))
        ],
      )
]

In-sort_by : (v : ℕ) (xs : List ℕ) → In v (sort_by ltb xs) ↔ In v xs
unfolding sort_by
In-sort_by v [] = (λ h. h, λ h. h)
In-sort_by v (x ∷ xs) =
    let one = In-insert_by v x (sort_by ltb xs) in
    let rest = In-sort_by v xs in
    (
      λ h. elim (one.0 h) [ inl new ↦ inl new | inr old ↦ inr (rest.0 old) ],
      λ h. one.1 (elim h [ inl new ↦ inl new | inr old ↦ inr (rest.1 old) ]),
    )

-- Some identifier of the list is that of the node.
abbrev pub Names : Graph → List ℕ → ℕ → Type 0
Names g ids v = (rid : ℕ) × In rid ids × (lookup g rid ≡ some v)

-- What is in the set of roots is in their list.
abbrev Listed : Graph → Type 0
Listed g = (v : ℕ) → g.root_set v ≡ true → In v g.roots

lookup-add_root : (g : Graph) (o : Option ℕ) (id : ℕ) → lookup (add_root g o) id ≡ lookup g id
unfolding lookup
lookup-add_root g none id = refl
lookup-add_root g (some j) id = elim (Bool-cases (g.root_set j)) [
  | inl e ↦ rw e refl
  | inr e ↦ rw e refl
]

add_root-only :
    (g : Graph) (o : Option ℕ) (v : ℕ) → In v (add_root g o).roots → In v g.roots ⊎ (o ≡ some v)
add_root-only g none v h = inl h
add_root-only g (some j) v h = elim (Bool-cases (g.root_set j)) [
  | inl e ↦ inl (rw e at h)
  | inr e ↦
      let k : In v (g.roots ++ (j ∷ [])) = rw e at h in
      elim (In-append v g.roots (j ∷ []) k) [
        | inl old ↦ inl old
        | inr (inl new) ↦ inr (ap some new)
        | inr (inr none_left) ↦ elim none_left [ ]
      ]
]

add_root-keeps : (g : Graph) (o : Option ℕ) (v : ℕ) → In v g.roots → In v (add_root g o).roots
add_root-keeps g none v h = h
add_root-keeps g (some j) v h = elim (Bool-cases (g.root_set j)) [
  | inl e ↦ rw e h
  | inr e ↦ rw e (In-left v g.roots (j ∷ []) h)
]

add_root-new : (g : Graph) (v : ℕ) → Listed g → In v (add_root g (some v)).roots
add_root-new g v h = elim (Bool-cases (g.root_set v)) [
  | inl e ↦ rw e (h v e)
  | inr e ↦ rw e (In-last v g.roots)
]

add_root-Listed : (g : Graph) (o : Option ℕ) → Listed g → Listed (add_root g o)
add_root-Listed g none h = h
add_root-Listed g (some j) h = elim (Bool-cases (g.root_set j)) [
  | inl e ↦ rw e h
  | inr e ↦ rw e λ v is. elim (Bool-cases (v == j)) [
    | inl same ↦ rw ((==_iff v j).0 same) (In-last j g.roots)
    | inr other ↦ In-left v g.roots (j ∷ []) (h v (rw other at is))
  ]
]

add_roots-only :
    (g : Graph) (ids : List ℕ) (v : ℕ) → In v (add_roots g ids).roots → In v g.roots ⊎ Names g ids v
unfolding add_roots
add_roots-only g [] v h = inl h
add_roots-only g (rid ∷ ids) v h = elim (add_roots-only (add_root g (lookup g rid)) ids v h) [
  | inl old ↦ elim (add_root-only g (lookup g rid) v old) [
    | inl older ↦ inl older
    | inr found ↦ inr (rid, inl refl, found)
  ]
  | inr (r, at, found) ↦ inr (r, inr at, sym (lookup-add_root g (lookup g rid) r) ∙ found)
]

add_roots-keeps : (g : Graph) (ids : List ℕ) (v : ℕ) → In v g.roots → In v (add_roots g ids).roots
unfolding add_roots
add_roots-keeps g [] v h = h
add_roots-keeps g (rid ∷ ids) v h =
    add_roots-keeps (add_root g (lookup g rid)) ids v (add_root-keeps g (lookup g rid) v h)

add_roots-new :
    (g : Graph) (ids : List ℕ) (v r : ℕ)
    → Listed g
    → In r ids
    → lookup g r ≡ some v
    → In v (add_roots g ids).roots
unfolding add_roots
add_roots-new g [] v r h none_left found = elim none_left [ ]
add_roots-new g (rid ∷ ids) v r h (inl same) found =
    let here_found : lookup g rid ≡ some v = ap (lookup g) same ∙ found in
    add_roots-keeps (add_root g (lookup g rid)) ids v (rw here_found (add_root-new g v h))
add_roots-new g (rid ∷ ids) v r h (inr at) found =
    add_roots-new (add_root g (lookup g rid)) ids v r (add_root-Listed g (lookup g rid) h) at
      (lookup-add_root g (lookup g rid) r ∙ found)

-- The roots, from none, are the nodes that the identifiers name.
pub add_roots-Names :
    (g : Graph) (ids : List ℕ) (v : ℕ)
    → g.roots ≡ []
    → ((i : ℕ) → g.root_set i ≡ false)
    → In v (sort_by ltb (add_roots g ids).roots) ↔ Names g ids v
add_roots-Names g ids v fresh unset =
    let sorted = In-sort_by v (add_roots g ids).roots in
    (
      λ h. elim (add_roots-only g ids v (sorted.0 h)) [
        | inl old ↦ absurd (rw fresh at old)
        | inr named ↦ named
      ],
      λ (r, at, found).
          sorted.1
            (add_roots-new g ids v r (λ w is. absurd (false≢true (sym (unset w) ∙ is))) at found),
    )
