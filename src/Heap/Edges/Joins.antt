-- ===== src/Heap/Edges/Joins.antt =====
-- The second pass of BuildGraph in heapdump/hprofx/graph.go emits edges between nodes only.
use rootforge.Prelude.{
  ℕ, zero, suc, ◌+◌, ◌*◌, ◌<◌, ◌≡◌, refl, Option, none, some, List, [], ◌∷◌, length, length-append,
  All-append, ltb, ◌==◌, Bool-cases, inl, inr, arith,
}
use rootforge.Hprof.Reader.{Reader, type_size, ◌>>=◌}
use rootforge.Hprof.Classes.{FieldDesc, Meta}
use rootforge.Heap.Graph.{Graph, node_count}
use rootforge.Heap.Lookup.{lookup}
use rootforge.Heap.Edges.{
  Edges, EdgePass, put_found, emit, emit_all, emit_field, emit_fields, emit_items, uint64_at,
}
use rootforge.Heap.Edges.Connects.{FindsNodes, JoinsNodes}

module _ (g : Graph) (finds : FindsNodes g) where
  abbrev pub Joins : Edges → Type 0
  Joins e = JoinsNodes (node_count g) e

  -- If there are edges, they join nodes.
  abbrev pub Kept : Option Edges → Type 0
  Kept none = Unit
  Kept (some e) = Joins e

  abbrev pub KeptPass : EdgePass → Type 0
  KeptPass none = Unit
  KeptPass (some (e, m, d)) = Joins e

  -- A source that Lookup returned, or -1.
  abbrev pub IsSource : Option ℕ → Type 0
  IsSource o = (v : ℕ) → o ≡ some v → v < node_count g

  then_Kept :
      (o : Option Edges) (f : Edges → Option Edges)
      → Kept o
      → ((e : Edges) → Joins e → Kept (f e))
      → Kept (o >>= f)
  then_Kept none f h k = tt
  then_Kept (some e) f h k = k e h

  pub edges_then :
      (o : Option Edges) (f : Edges → EdgePass)
      → Kept o
      → ((e : Edges) → Joins e → KeptPass (f e))
      → KeptPass (o >>= f)
  edges_then none f h k = tt
  edges_then (some e) f h k = k e h

  pub reads_then :
      {A : Type 0} (o : Option A) (f : A → EdgePass)
      → ((a : A) → KeptPass (f a))
      → KeptPass (o >>= f)
  reads_then none f k = tt
  reads_then (some a) f k = k a

  reads_edges :
      {A : Type 0} (o : Option A) (f : A → Option Edges) → ((a : A) → Kept (f a)) → Kept (o >>= f)
  reads_edges none f k = tt
  reads_edges (some a) f k = k a

  pub pass_then :
      (p : EdgePass) (f : Edges × Meta × Reader → EdgePass)
      → KeptPass p
      → ((e : Edges) (m : Meta) (d : Reader) → Joins e → KeptPass (f (e, m, d)))
      → KeptPass (p >>= f)
  pass_then none f h k = tt
  pass_then (some (e, m, d)) f h k = k e m d h

  put_found-Kept :
      (from o : Option ℕ) (e : Edges)
      → IsSource from
      → IsSource o
      → Joins e
      → Kept (put_found from o e)
  put_found-Kept from none e s t j = j
  put_found-Kept none (some to) e s t j = tt
  put_found-Kept (some v) (some to) e s t j = record {
    paired = omega (arith, length-append e.src (v ∷ []), length-append e.dst (to ∷ []), j.paired);
    from_nodes = All-append (λ f. f < node_count g) e.src (v ∷ []) j.from_nodes (s v refl, tt);
    to_nodes = All-append (λ f. f < node_count g) e.dst (to ∷ []) j.to_nodes (t to refl, tt);
  }

  emit-Kept :
      (from : Option ℕ) (to : ℕ) (e : Edges) → IsSource from → Joins e → Kept (emit g from to e)
  unfolding emit
  emit-Kept from to e s j = elim (Bool-cases (to == 0)) [
    | inl y ↦ rw y j
    | inr n ↦ rw n (put_found-Kept from (lookup g to) e s (finds to) j)
  ]

  pub emit_all-Kept :
      (from : Option ℕ) (ids : List ℕ) (e : Edges)
      → IsSource from
      → Joins e
      → Kept (emit_all g from ids e)
  unfolding emit_all
  emit_all-Kept from [] e s j = j
  emit_all-Kept from (to ∷ ids) e s j =
      then_Kept (emit g from to e) _ (emit-Kept from to e s j)
        (λ next k. emit_all-Kept from ids next s k)

  emit_field-Kept :
      (from : Option ℕ) (body : List ℕ) (off type : ℕ) (e : Edges)
      → IsSource from
      → Joins e
      → Kept (emit_field g from body off type e)
  emit_field-Kept from body off type e s j = elim (Bool-cases (type == 2)) [
    | inl y ↦ rw y (emit-Kept from (uint64_at body off) e s j)
    | inr n ↦ rw n j
  ]

  pub emit_fields-Kept :
      (from : Option ℕ) (body : List ℕ) (off : ℕ) (layout : List FieldDesc) (e : Edges)
      → IsSource from
      → Joins e
      → Kept (emit_fields g from body off layout e)
  unfolding emit_fields
  emit_fields-Kept from body off [] e s j = j
  emit_fields-Kept from body off (f ∷ layout) e s j = reads_edges (type_size f.typ) _ (λ w.
      elim (Bool-cases (ltb (length body) (off + w))) [
        | inl y ↦ rw y j
        | inr n ↦ rw n (
            then_Kept (emit_field g from body off f.typ e) _
              (emit_field-Kept from body off f.typ e s j)
              (λ next k. emit_fields-Kept from body (off + w) layout next s k))
      ])

  pub emit_items-Kept :
      (from : Option ℕ) (body : List ℕ) (i n : ℕ) (e : Edges)
      → IsSource from
      → Joins e
      → Kept (emit_items g from body i n e)
  unfolding emit_items
  emit_items-Kept from body i zero e s j = j
  emit_items-Kept from body i (suc n) e s j =
      then_Kept (emit g from (uint64_at body (i * 8)) e) _
        (emit-Kept from (uint64_at body (i * 8)) e s j)
        (λ next k. emit_items-Kept from body (suc i) n next s k)
