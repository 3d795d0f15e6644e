-- ===== src/Heap/Edges.antt =====
-- The second pass of BuildGraph in heapdump/hprofx/graph.go, which reads the references.
pub mod Connects
pub mod Joins
pub mod Segments
pub mod Walks
pub mod Roots
use rootforge.Prelude.{
  ℕ, zero, suc, ◌+◌, ◌*◌, not, ◌||◌, Bool, true, false, Option, none, some, List, [], ◌∷◌, ◌++◌,
  length, take, ltb, ◌==◌, if◌then◌else◌,
}
use rootforge.Sort.{sort_by}
use rootforge.Hprof.Reader.{Reader, id, u1, u4, must, skip, type_size, big_endian, ◌>>=◌}
use rootforge.Hprof.Root.{skip_root}
use rootforge.Hprof.Names.{drop}
use rootforge.Hprof.Classes.{
  FieldDesc, ClassInfo, Meta, read_class_dump, sub_instance, sub_obj_array, sub_prim_array,
}
use rootforge.Heap.Csr.{build_csr}
use rootforge.Heap.Graph.{Graph, node_count}
use rootforge.Heap.Lookup.{lookup}
use rootforge.Heap.Objects.{sub_class_dump, tag_heap_dump, tag_heap_seg}

-- The slices src and dst of BuildGraph.
pub record Edges : Type 0 where
  pub src : List ℕ
  pub dst : List ℕ

abbrev pub no_references : Edges
no_references = record { src = []; dst = [] }

abbrev pub put_edge : Option ℕ → ℕ → Edges → Option Edges
put_edge none to e = none
put_edge (some from) to e = some (record { src = e.src ++ (from ∷ []); dst = e.dst ++ (to ∷ []) })

abbrev pub put_found : Option ℕ → Option ℕ → Edges → Option Edges
put_found from none e = some e
put_found from (some to) e = put_edge from to e

-- emit. A source of -1 makes buildCSR panic after the pass, which is `none` here.
unfoldable pub emit : Graph → Option ℕ → ℕ → Edges → Option Edges
emit g from to e = if to == 0 then some e else put_found from (lookup g to) e

unfoldable pub emit_all : Graph → Option ℕ → List ℕ → Edges → Option Edges
emit_all g from [] e = some e
emit_all g from (to ∷ ids) e = emit g from to e >>= λ next. emit_all g from ids next

-- binary.BigEndian.Uint64(body[off:]).
abbrev pub uint64_at : List ℕ → ℕ → ℕ
uint64_at body off = big_endian 0 (take 8 (drop off body))

abbrev pub emit_field : Graph → Option ℕ → List ℕ → ℕ → ℕ → Edges → Option Edges
emit_field g from body off type e = if type == 2 then emit g from (uint64_at body off) e else some e

-- The loop over the layout of an instance.
unfoldable pub emit_fields : Graph → Option ℕ → List ℕ → ℕ → List FieldDesc → Edges → Option Edges
emit_fields g from body off [] e = some e
emit_fields g from body off (f ∷ layout) e = type_size f.typ >>= λ w.
    elim (ltb (length body) (off + w)) [
      | true ↦ some e
      | false ↦ emit_field g from body off f.typ e >>= λ next.
          emit_fields g from body (off + w) layout next
    ]

-- A class that is not there, and one without a layout, has no fields.
abbrev pub layout_of : Option ClassInfo → List FieldDesc
layout_of none = []
layout_of (some c) = elim c.layout [ none ↦ [] | some layout ↦ layout ]

-- The loop over n items of an array, from an offset on.
unfoldable pub emit_items : Graph → Option ℕ → List ℕ → ℕ → ℕ → Edges → Option Edges
emit_items g from body i zero e = some e
emit_items g from body i (suc n) e =
    emit g from (uint64_at body (i * 8)) e >>= λ next. emit_items g from body (suc i) n next

abbrev pub EdgePass : Type 0
EdgePass = Option (Edges × Meta × Reader)

unfoldable pub class_edges : Graph → Edges → Meta → Reader → EdgePass
class_edges g e m d = read_class_dump m d >>= λ r.
    emit_all g (lookup g r.0.0.id) r.0.0.statics e >>= λ next. some (next, r.0.1, r.1)

unfoldable pub instance_edges : Graph → Edges → Meta → Reader → EdgePass
instance_edges g e m d = id d >>= λ o. u4 o.1 >>= λ s. id s.1 >>= λ c. u4 c.1 >>= λ n.
    must n.0 n.1 >>= λ body.
    emit_fields g (lookup g o.0) body.0 0 (layout_of (m.classes c.0)) e >>= λ next.
    some (next, m, body.1)

unfoldable pub array_edges : Graph → Edges → Meta → Reader → EdgePass
array_edges g e m d = id d >>= λ o. u4 o.1 >>= λ s. u4 s.1 >>= λ n. id n.1 >>= λ c.
    must (n.0 * 8) c.1 >>= λ body.
    emit_items g (lookup g o.0) body.0 0 n.0 e >>= λ next. some (next, m, body.1)

unfoldable pub no_edges : Edges → Meta → Reader → EdgePass
no_edges e m d = id d >>= λ o. u4 o.1 >>= λ s. u4 s.1 >>= λ n.
    u1 n.1 >>= λ t. type_size t.0 >>= λ w. skip (n.0 * w) t.1 >>= λ d'. some (e, m, d')

-- The switch on a sub-record that is not a root, which has no default.
unfoldable pub object_edges : ℕ → Graph → Edges → Meta → Reader → EdgePass
object_edges sub g e m d =
    if sub == sub_class_dump
    then class_edges g e m d
    else if sub == sub_instance
    then instance_edges g e m d
    else if sub == sub_obj_array
    then array_edges g e m d
    else if sub == sub_prim_array
    then no_edges e m d
    else some (e, m, d)

abbrev pub edges_unless_root : ℕ → Graph → Edges → Meta → (ℕ × Bool) × Reader → EdgePass
edges_unless_root sub g e m ((root, true), d) = some (e, m, d)
edges_unless_root sub g e m ((root, false), d) = object_edges sub g e m d

unfoldable pub sub_edges : Graph → Edges → Meta → Reader → EdgePass
sub_edges g e m d =
    u1 d >>= λ sub. skip_root sub.0 sub.1 >>= λ root. edges_unless_root sub.0 g e m root

-- The loop over a segment. Each turn reads a byte, so as many turns as bytes are enough.
unfoldable pub segment_edges : ℕ → ℕ → Graph → Edges → Meta → Reader → EdgePass
segment_edges zero end g e m d = if ltb d.pos end then none else some (e, m, d)
segment_edges (suc fuel) end g e m d = elim (ltb d.pos end) [
  | false ↦ some (e, m, d)
  | true ↦ sub_edges g e m d >>= λ r. segment_edges fuel end g r.0 r.1 r.2
]

unfoldable pub record_edges : Graph → Edges → Meta → Reader → EdgePass
record_edges g e m d = u1 d >>= λ tag. u4 tag.1 >>= λ stamp. u4 stamp.1 >>= λ len.
    if tag.0 == tag_heap_dump || tag.0 == tag_heap_seg
    then segment_edges (length len.1.rest) (len.1.pos + len.0) g e m len.1
    else (skip len.0 len.1 >>= λ d'. some (e, m, d'))

-- The loop over the records, of which each takes a byte.
unfoldable pub records_edges : ℕ → ℕ → Graph → Edges → Meta → Reader → EdgePass
records_edges zero total g e m d = if ltb d.pos total then none else some (e, m, d)
records_edges (suc fuel) total g e m d = elim (ltb d.pos total) [
  | false ↦ some (e, m, d)
  | true ↦ record_edges g e m d >>= λ r. records_edges fuel total g r.0 r.1 r.2
]

abbrev pub add_root : Graph → Option ℕ → Graph
add_root g none = g
add_root g (some j) = if g.root_set j then g else record g {
  root_set = λ i. if i == j then true else g.root_set i;
  roots = g.roots ++ (j ∷ []);
}

-- The loop over RootIDs.
unfoldable pub add_roots : Graph → List ℕ → Graph
add_roots g [] = g
add_roots g (rid ∷ ids) = add_roots (add_root g (lookup g rid)) ids

-- The rest of BuildGraph, after the pass.
unfoldable pub connect : Graph → Edges → List ℕ → Option Graph
connect g e root_ids = build_csr (node_count g) e.src e.dst >>= λ forward.
    build_csr (node_count g) e.dst e.src >>= λ reverse.
    let rooted = add_roots (record g { forward = forward; reverse = reverse }) root_ids in
    some (record rooted { roots = sort_by ltb rooted.roots })
