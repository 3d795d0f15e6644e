-- ===== src/Heap/Lookup/Finds.antt =====
-- Graph.Lookup of heapdump/hprofx/graph.go finds what is there.
use rootforge.Prelude.{
  ℕ, zero, suc, ◌<◌, ◌≤◌, ◌≡◌, ◌≢◌, ◌⊎◌, ◌&&◌, refl, sym, ap, ◌∙◌, Bool, false, none, some, List,
  [], ◌∷◌, map, ltb, leb, ◌==◌, ==_iff, length, length-map, item, Bool-cases, &&-true, inl, inr,
  arith,
}
use rootforge.Sort.{sort_by}
use rootforge.Sort.Order.{StrictWeak, Ascending, sort_by-Ascending, sort_by-All}
use rootforge.Heap.Graph.{Graph, node_count}
use rootforge.Heap.Lookup.Search.{IsFirst, search_from-IsFirst}
use rootforge.Heap.Lookup.Items.{
  sort_by-Has, length-range, item-range, range-All, item-All, item-map,
}
use rootforge.Heap.Lookup.{range, less_id, index_ids, search, lookup}

module _ (g : Graph) where
  id_order : StrictWeak (less_id g)
  id_order = record {
    asymmetric = λ x y h. ground (arith, h);
    not_less_trans = λ x y z h k. ground (arith, h, k);
  }

  abbrev sorted : List ℕ
  sorted = sort_by (less_id g) (range (node_count g))

  abbrev slots : ℕ
  slots = length (map g.ids.at sorted)

  slots_lem : slots ≡ length sorted
  slots_lem = length-map sorted g.ids.at

  abbrev found_at : ℕ → ℕ
  found_at id = search slots (λ k. leb id (item (map g.ids.at sorted) k))

  abbrev test : ℕ → ℕ → Bool
  test id k = leb id (item (map g.ids.at sorted) k)

  item-Ascending :
      (xs : List ℕ) (k l : ℕ)
      → Ascending id_order xs
      → k ≤ l
      → l < length xs
      → g.ids.at (item xs k) ≤ g.ids.at (item xs l)
  item-Ascending [] k l h low high = absurd (omega (arith, high))
  item-Ascending (x ∷ xs) zero zero h low high = omega arith
  item-Ascending (x ∷ xs) zero (suc l) h low high =
      ground (arith, item-All (λ y. less_id g y x ≡ false) xs l h.0 (omega (arith, high)))
  item-Ascending (x ∷ xs) (suc k) zero h low high = absurd (omega (arith, low))
  item-Ascending (x ∷ xs) (suc k) (suc l) h low high =
      item-Ascending xs k l h.1 (omega (arith, low)) (omega (arith, high))

  id_at : (k : ℕ) → k < length sorted → item (map g.ids.at sorted) k ≡ g.ids.at (item sorted k)
  id_at k h = item-map g.ids.at sorted k h

  ids_ascend :
      (k l : ℕ) → k ≤ l → l < slots → item (map g.ids.at sorted) k ≤ item (map g.ids.at sorted) l
  ids_ascend k l low high = omega (
    arith,
    id_at k (omega (arith, low, high, slots_lem)),
    id_at l (omega (arith, high, slots_lem)),
    item-Ascending sorted k l (sort_by-Ascending id_order (range (node_count g))) low
        (omega (arith, high, slots_lem)),
  )

  first : (id : ℕ) → IsFirst slots (test id) (found_at id)
  first id =
      search_from-IsFirst slots (test id) slots 0 slots
        (λ k l low high h. ground (arith, ids_ascend k l low high, h)) (omega arith) (omega arith)
        (omega arith) (λ k h. absurd (omega (arith, h))) (λ k h q. absurd (omega (arith, h, q)))

  absent :
      (id v i : ℕ)
      → IsFirst slots (test id) i
      → (ltb i slots && item (map g.ids.at sorted) i == id) ≡ false
      → v < node_count g
      → g.ids.at v ≢ id
  absent id v i f fails low same =
      let (k, fits, is) =
        sort_by-Has (less_id g) v (range (node_count g))
          (v, rw (length-range (node_count g)) low, item-range (node_count g) v low) in
      let here : item (map g.ids.at sorted) k ≡ id = id_at k fits ∙ ap g.ids.at is ∙ same in
      elim (Bool-cases (ltb k i)) [
        | inl before ↦ ground (arith, f.below k (ground arith), here)
        | inr after ↦
            let fits : k < slots = omega (arith, fits, slots_lem) in
            let low : i ≤ k = ground arith in
            ground (
              arith,
              here,
              fails,
              f.from i (omega arith) (omega (arith, low, fits)),
              ids_ascend i k low fits,
            )
      ]

  -- Lookup, in the index that BuildGraph sorts, returns a node that has the identifier, or -1 if
  -- no node has it: as a search through all identifiers.
  pub lookup-Finds :
      (id : ℕ)
      → ((lookup (index_ids g) id ≡ none) × ((v : ℕ) → v < node_count g → g.ids.at v ≢ id))
        ⊎ ((v : ℕ) × (lookup (index_ids g) id ≡ some v) × (v < node_count g) × (g.ids.at v ≡ id))
  unfolding lookup index_ids
  lookup-Finds id =
      let i = found_at id in
      elim (Bool-cases (ltb i slots && item (map g.ids.at sorted) i == id)) [
        | inl found ↦
            let (low, same) = &&-true (ltb i slots) (item (map g.ids.at sorted) i == id) found in
            let low : i < length sorted = ground (arith, low, slots_lem) in
            inr (
              item sorted i,
              rw found refl,
              item-All (λ v. v < node_count g) sorted i
                  (sort_by-All (λ v. v < node_count g) (less_id g) (range (node_count g))
                    (range-All (node_count g) (node_count g) (omega arith)))
                  low,
              sym (id_at i low) ∙ (==_iff _ _).0 same,
            )
        | inr missing ↦ inl (rw missing refl, λ v low. absent id v i (first id) missing low)
      ]
