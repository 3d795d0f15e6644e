-- ===== src/Heap/Objects.antt =====
-- The first pass of BuildGraph in heapdump/hprofx/graph.go, which enumerates the objects.
pub mod Reads
pub mod RoundTrip
pub mod Size
use rootforge.Prelude.{
  ℕ, zero, suc, ◌+◌, ◌*◌, ◌%◌, ◌^◌, not, ◌||◌, Bool, true, false, Option, none, some, ltb, ◌==◌,
  if◌then◌else◌, length, [], make, append,
}
use rootforge.Hprof.Reader.{Reader, Parsed, id, u1, u4, unsigned, skip, type_size, ◌>>=◌}
use rootforge.Hprof.Root.{skip_root}
use rootforge.Hprof.Classes.{Meta, read_class_dump, sub_instance, sub_obj_array, sub_prim_array}
use rootforge.Heap.Graph.{Graph}

abbrev pub kind_class : ℕ
kind_class = 0

abbrev pub kind_instance : ℕ
kind_instance = 1

abbrev pub kind_obj_array : ℕ
kind_obj_array = 2

abbrev pub kind_prim_array : ℕ
kind_prim_array = 3

abbrev pub tag_heap_dump : ℕ
tag_heap_dump = 0x0C

abbrev pub tag_heap_seg : ℕ
tag_heap_seg = 0x1C

abbrev pub sub_class_dump : ℕ
sub_class_dump = 0x20

-- The 32 bits of int32 of a number.
abbrev pub int32 : ℕ → ℕ
int32 n = n % 2 ^ 32

-- Graph.add.
unfoldable pub add : Graph → ℕ → ℕ → ℕ → ℕ → ℕ → Graph
add g id cls size kind off = record g {
  ids = append g.ids id;
  class_of = append g.class_of cls;
  size = append g.size size;
  kind = append g.kind kind;
  offset = append g.offset off;
}

-- The graph and the Meta so far, and the reader.
abbrev pub Pass : Type 0
Pass = Option (Graph × Meta × Reader)

unfoldable pub add_class : ℕ → Graph → Meta → Reader → Pass
add_class off g m d =
    read_class_dump m d >>= λ r. some (add g r.0.0.id r.0.0.id 0 kind_class off, r.0.1, r.1)

unfoldable pub add_instance : ℕ → Graph → Meta → Reader → Pass
add_instance off g m d = id d >>= λ o. u4 o.1 >>= λ s. id s.1 >>= λ c. u4 c.1 >>= λ n.
    skip n.0 n.1 >>= λ e. some (add g o.0 c.0 (int32 (16 + n.0)) kind_instance off, m, e)

unfoldable pub add_obj_array : ℕ → Graph → Meta → Reader → Pass
add_obj_array off g m d = id d >>= λ o. u4 o.1 >>= λ s. u4 s.1 >>= λ n. id n.1 >>= λ c.
    skip (n.0 * 8) c.1 >>= λ e. some (add g o.0 c.0 (int32 (16 + n.0 * 8)) kind_obj_array off, m, e)

unfoldable pub add_prim_array : ℕ → Graph → Meta → Reader → Pass
add_prim_array off g m d = id d >>= λ o. u4 o.1 >>= λ s. u4 s.1 >>= λ n. u1 n.1 >>= λ t.
    type_size t.0 >>= λ w. skip (n.0 * w) t.1 >>= λ e.
    some (add g o.0 t.0 (int32 (16 + n.0 * w)) kind_prim_array off, m, e)

-- The switch on a sub-record that is not a root; an unexpected one panics.
unfoldable pub add_object : ℕ → Graph → Meta → Reader → Pass
add_object sub g m d =
    if sub == sub_class_dump
    then add_class d.pos g m d
    else if sub == sub_instance
    then add_instance d.pos g m d
    else if sub == sub_obj_array
    then add_obj_array d.pos g m d
    else if sub == sub_prim_array
    then add_prim_array d.pos g m d
    else none

-- A root is passed over.
unfoldable pub add_sub : ℕ → Graph → Meta → (ℕ × Bool) × Reader → Pass
add_sub sub g m ((root, true), d) = some (g, m, d)
add_sub sub g m ((root, false), d) = add_object sub g m d

-- One turn of the loop over a segment.
unfoldable pub read_sub : Graph → Meta → Reader → Pass
read_sub g m d = u1 d >>= λ sub. skip_root sub.0 sub.1 >>= λ root. add_sub sub.0 g m root

-- The loop over a segment. Each turn reads a byte, so as many turns as bytes are enough.
unfoldable pub read_segment : ℕ → ℕ → Graph → Meta → Reader → Pass
read_segment zero end g m d = if ltb d.pos end then none else some (g, m, d)
read_segment (suc fuel) end g m d = elim (ltb d.pos end) [
  | false ↦ some (g, m, d)
  | true ↦ read_sub g m d >>= λ r. read_segment fuel end r.0 r.1 r.2
]

unfoldable pub read_body : ℕ → ℕ → Graph → Meta → Reader → Pass
read_body tag len g m d =
    if tag == tag_heap_dump || tag == tag_heap_seg
    then read_segment (length d.rest) (d.pos + len) g m d
    else (skip len d >>= λ e. some (g, m, e))

-- One turn of the loop over the records.
unfoldable pub read_record : Graph → Meta → Reader → Pass
read_record g m d =
    u1 d >>= λ tag. u4 tag.1 >>= λ stamp. u4 stamp.1 >>= λ len. read_body tag.0 len.0 g m len.1

-- The loop over the records, of which each takes a byte.
unfoldable pub read_records : ℕ → ℕ → Graph → Meta → Reader → Pass
read_records zero total g m d = if ltb d.pos total then none else some (g, m, d)
read_records (suc fuel) total g m d = elim (ltb d.pos total) [
  | false ↦ some (g, m, d)
  | true ↦ read_record g m d >>= λ r. read_records fuel total r.0 r.1 r.2
]

abbrev pub empty_graph : Graph
empty_graph = record {
  ids = make 0 0;
  class_of = make 0 0;
  size = make 0 0;
  kind = make 0 0;
  offset = make 0 0;
  sorted_ids = make 0 0;
  sorted_idx = make 0 0;
  forward = (make 0 0, make 0 0);
  reverse = (make 0 0, make 0 0);
  roots = [];
  root_set = λ i. false;
}

-- The first pass over the records that follow the header.
unfoldable pub enumerate : ℕ → Meta → Reader → Pass
enumerate total m d = read_records (length d.rest) total empty_graph m d
