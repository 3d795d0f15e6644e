-- ===== src/Heap/Edges/Segments.antt =====
-- The loops of the second pass of BuildGraph in heapdump/hprofx/graph.go keep the edges between
-- nodes.
use rootforge.Prelude.{
  ℕ, zero, suc, ◌+◌, ◌*◌, true, false, Bool, ◌||◌, length, ltb, ◌==◌, Bool-cases, if_rule, inl, inr,
}
use rootforge.Hprof.Reader.{Reader, id, u1, u4, must, skip, type_size}
use rootforge.Hprof.Root.{skip_root}
use rootforge.Hprof.Classes.{Meta, read_class_dump, sub_instance, sub_obj_array, sub_prim_array}
use rootforge.Heap.Graph.{Graph}
use rootforge.Heap.Lookup.{lookup}
use rootforge.Heap.Objects.{sub_class_dump, tag_heap_dump, tag_heap_seg}
use rootforge.Heap.Edges.{
  Edges, layout_of, class_edges, instance_edges, array_edges, no_edges, object_edges,
  edges_unless_root, sub_edges, segment_edges, record_edges, records_edges,
}
use rootforge.Heap.Edges.Connects.{FindsNodes}
use rootforge.Heap.Edges.Joins.{
  Joins, KeptPass, edges_then, reads_then, pass_then, emit_all-Kept, emit_fields-Kept,
  emit_items-Kept,
}

module _ (g : Graph) (finds : FindsNodes g) where
  class_edges-Kept :
      (e : Edges) (m : Meta) (d : Reader) → Joins g finds e → KeptPass g finds (class_edges g e m d)
  unfolding class_edges
  class_edges-Kept e m d j = reads_then g finds (read_class_dump m d) _ (λ r.
      edges_then g finds _ _
        (emit_all-Kept g finds (lookup g r.0.0.id) r.0.0.statics e (finds r.0.0.id) j)
        (λ next k. k))

  instance_edges-Kept :
      (e : Edges) (m : Meta) (d : Reader)
      → Joins g finds e
      → KeptPass g finds (instance_edges g e m d)
  unfolding instance_edges
  instance_edges-Kept e m d j = reads_then g finds (id d) _ (λ o.
      reads_then g finds (u4 o.1) _ (λ s. reads_then g finds (id s.1) _ (λ c.
        reads_then g finds (u4 c.1) _ (λ n. reads_then g finds (must n.0 n.1) _ (λ body.
          edges_then g finds _ _
            (emit_fields-Kept g finds (lookup g o.0) body.0 0 (layout_of (m.classes c.0)) e
              (finds o.0) j)
            (λ next k. k))))))

  array_edges-Kept :
      (e : Edges) (m : Meta) (d : Reader) → Joins g finds e → KeptPass g finds (array_edges g e m d)
  unfolding array_edges
  array_edges-Kept e m d j = reads_then g finds (id d) _ (λ o. reads_then g finds (u4 o.1) _ (λ s.
      reads_then g finds (u4 s.1) _ (λ n. reads_then g finds (id n.1) _ (λ c.
        reads_then g finds (must (n.0 * 8) c.1) _ (λ body.
          edges_then g finds _ _
            (emit_items-Kept g finds (lookup g o.0) body.0 0 n.0 e (finds o.0) j) (λ next k. k))))))

  no_edges-Kept :
      (e : Edges) (m : Meta) (d : Reader) → Joins g finds e → KeptPass g finds (no_edges e m d)
  unfolding no_edges
  no_edges-Kept e m d j = reads_then g finds (id d) _ (λ o. reads_then g finds (u4 o.1) _ (λ s.
      reads_then g finds (u4 s.1) _ (λ n. reads_then g finds (u1 n.1) _ (λ t.
        reads_then g finds (type_size t.0) _
          (λ w. reads_then g finds (skip (n.0 * w) t.1) _ (λ d'. j))))))

  object_edges-Kept :
      (sub : ℕ) (e : Edges) (m : Meta) (d : Reader)
      → Joins g finds e
      → KeptPass g finds (object_edges sub g e m d)
  unfolding object_edges
  object_edges-Kept sub e m d j =
      if_rule (KeptPass g finds) (sub == sub_class_dump) _ _ (λ t. class_edges-Kept e m d j)
        (λ f.
          if_rule (KeptPass g finds) (sub == sub_instance) _ _ (λ t. instance_edges-Kept e m d j)
            (λ f.
              if_rule (KeptPass g finds) (sub == sub_obj_array) _ _ (λ t. array_edges-Kept e m d j)
                (λ f.
                  if_rule (KeptPass g finds) (sub == sub_prim_array) _ _
                    (λ t. no_edges-Kept e m d j) (λ f. j))))

  root_edges-Kept :
      (sub : ℕ) (e : Edges) (m : Meta) (r : (ℕ × Bool) × Reader)
      → Joins g finds e
      → KeptPass g finds (edges_unless_root sub g e m r)
  root_edges-Kept sub e m ((root, true), d) j = j
  root_edges-Kept sub e m ((root, false), d) j = object_edges-Kept sub e m d j

  sub_edges-Kept :
      (e : Edges) (m : Meta) (d : Reader) → Joins g finds e → KeptPass g finds (sub_edges g e m d)
  unfolding sub_edges
  sub_edges-Kept e m d j = reads_then g finds (u1 d) _ (λ sub.
      reads_then g finds (skip_root sub.0 sub.1) _ (λ root. root_edges-Kept sub.0 e m root j))

  segment_edges-Kept :
      (fuel end : ℕ) (e : Edges) (m : Meta) (d : Reader)
      → Joins g finds e
      → KeptPass g finds (segment_edges fuel end g e m d)
  unfolding segment_edges
  segment_edges-Kept zero end e m d j =
      if_rule (KeptPass g finds) (ltb d.pos end) _ _ (λ t. tt) (λ f. j)
  segment_edges-Kept (suc fuel) end e m d j = elim (Bool-cases (ltb d.pos end)) [
    | inl more ↦
        rw (more, segment_edges)
          (pass_then g finds (sub_edges g e m d) _ (sub_edges-Kept e m d j)
            (λ e' m' d' k. segment_edges-Kept fuel end e' m' d' k))
    | inr done ↦ rw (done, segment_edges) j
  ]

  record_edges-Kept :
      (e : Edges) (m : Meta) (d : Reader)
      → Joins g finds e
      → KeptPass g finds (record_edges g e m d)
  unfolding record_edges
  record_edges-Kept e m d j = reads_then g finds (u1 d) _ (λ tag.
      reads_then g finds (u4 tag.1) _ (λ stamp. reads_then g finds (u4 stamp.1) _ (λ len.
        if_rule (KeptPass g finds) (tag.0 == tag_heap_dump || tag.0 == tag_heap_seg) _ _
          (λ t. segment_edges-Kept (length len.1.rest) (len.1.pos + len.0) e m len.1 j)
          (λ f. reads_then g finds (skip len.0 len.1) _ (λ d'. j)))))

  pub records_edges-Kept :
      (fuel total : ℕ) (e : Edges) (m : Meta) (d : Reader)
      → Joins g finds e
      → KeptPass g finds (records_edges fuel total g e m d)
  unfolding records_edges
  records_edges-Kept zero total e m d j =
      if_rule (KeptPass g finds) (ltb d.pos total) _ _ (λ t. tt) (λ f. j)
  records_edges-Kept (suc fuel) total e m d j = elim (Bool-cases (ltb d.pos total)) [
    | inl more ↦
        rw (more, records_edges)
          (pass_then g finds (record_edges g e m d) _ (record_edges-Kept e m d j)
            (λ e' m' d' k. records_edges-Kept fuel total e' m' d' k))
    | inr done ↦ rw (done, records_edges) j
  ]
