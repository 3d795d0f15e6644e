-- ===== src/Heap/Objects/RoundTrip.antt =====
-- The first pass of BuildGraph over the instances and arrays that a dump's writer puts down.
use rootforge.Prelude.{
  ℕ, zero, suc, ◌+◌, ◌*◌, ◌%◌, ◌^◌, ◌<◌, ◌≤◌, ◌≡◌, refl, ap, ◌∙◌, some, true, false, Bool, List, [],
  ◌∷◌, ◌++◌, length, append, All, lt→ltb, arith,
}
use rootforge.Hprof.Reader.{Reader, type_size, ◌>>=◌}
use rootforge.Hprof.Opens.{at_bytes}
use rootforge.Hprof.Root.{skip_root}
use rootforge.Hprof.Classes.{Meta, sub_instance, sub_obj_array, sub_prim_array}
use rootforge.Heap.Graph.{Graph}
use rootforge.Heap.Objects.{
  Pass, add, add_instance, add_obj_array, add_prim_array, add_object, add_sub, read_sub,
  read_segment,
}
use rootforge.Heap.Objects.Reads.{bytes_of, unsigned-bytes_of, skip-append}

-- An object of the heap, with its identifier, the serial of a stack trace, its class or type, and
-- its contents; an array has a number of items.
pub data HeapObject : Type 0 where
  instance_of : (object serial class_id : ℕ) → List ℕ → HeapObject
  obj_array : (object serial class_id count : ℕ) → List ℕ → HeapObject
  prim_array : (object serial type count : ℕ) → List ℕ → HeapObject

-- The bytes of an object, before those of the rest.
abbrev pub write : HeapObject → List ℕ → List ℕ
write (instance_of o s c body) rest =
    sub_instance
    ∷ (bytes_of 8 o
        ++ (bytes_of 4 s ++ (bytes_of 8 c ++ (bytes_of 4 (length body) ++ (body ++ rest)))))
write (obj_array o s c n body) rest =
    sub_obj_array
    ∷ (bytes_of 8 o ++ (bytes_of 4 s ++ (bytes_of 4 n ++ (bytes_of 8 c ++ (body ++ rest)))))
write (prim_array o s t n body) rest =
    sub_prim_array
    ∷ (bytes_of 8 o ++ (bytes_of 4 s ++ (bytes_of 4 n ++ (bytes_of 1 t ++ (body ++ rest)))))

abbrev pub length_of : HeapObject → ℕ
length_of (instance_of o s c body) = 25 + length body
length_of (obj_array o s c n body) = 25 + length body
length_of (prim_array o s t n body) = 18 + length body

-- The numbers fit their fields, and an array has as many bytes as its items take.
abbrev pub Fits : HeapObject → Type 0
Fits (instance_of o s c body) = (o < 2 ^ 64) × (s < 2 ^ 32) × (c < 2 ^ 64) × (length body < 2 ^ 32)
Fits (obj_array o s c n body) =
    (o < 2 ^ 64) × (s < 2 ^ 32) × (c < 2 ^ 64) × (n < 2 ^ 32) × (length body ≡ n * 8)
Fits (prim_array o s t n body) =
    (o < 2 ^ 64)
    × (s < 2 ^ 32)
    × (t < 2 ^ 8)
    × (n < 2 ^ 32)
    × ((w : ℕ) × (type_size t ≡ some w) × (length body ≡ n * w))

abbrev pub content_length : HeapObject → ℕ
content_length (instance_of o s c body) = length body
content_length (obj_array o s c n body) = length body
content_length (prim_array o s t n body) = length body

abbrev identifier : HeapObject → ℕ
identifier (instance_of o s c body) = o
identifier (obj_array o s c n body) = o
identifier (prim_array o s t n body) = o

-- The identifier of the class, or the tag of the type.
abbrev class_or_type : HeapObject → ℕ
class_or_type (instance_of o s c body) = c
class_or_type (obj_array o s c n body) = c
class_or_type (prim_array o s t n body) = t

abbrev kind_of : HeapObject → ℕ
kind_of (instance_of o s c body) = 1
kind_of (obj_array o s c n body) = 2
kind_of (prim_array o s t n body) = 3

-- The graph with an object that stands at this offset, in each of its lists.
abbrev pub added : Graph → ℕ → HeapObject → Graph
added g off o = record {
  ids = append g.ids (identifier o);
  class_of = append g.class_of (class_or_type o);
  size = append g.size ((16 + content_length o) % 2 ^ 32);
  kind = append g.kind (kind_of o);
  offset = append g.offset off;
  sorted_ids = g.sorted_ids;
  sorted_idx = g.sorted_idx;
  forward = g.forward;
  reverse = g.reverse;
  roots = g.roots;
  root_set = g.root_set;
}

abbrev pass_of : Graph → Meta → Reader → Pass
pass_of g m d = some (g, m, d)

end_at :
    (g : Graph) (m : Meta) (rest : List ℕ) (p q : ℕ)
    → p ≡ q
    → pass_of g m (at_bytes rest p) ≡ pass_of g m (at_bytes rest q)
end_at g m rest p q e = ap (λ (k : ℕ). pass_of g m (at_bytes rest k)) e

pub read_sub-write :
    (g : Graph) (m : Meta) (o : HeapObject) (rest : List ℕ) (pos : ℕ)
    → Fits o
    → read_sub g m (at_bytes (write o rest) pos)
      ≡ some (added g (pos + 1) o, m, at_bytes rest (pos + length_of o))
unfolding read_sub skip_root add_sub add_object add_instance add_obj_array add_prim_array add
read_sub-write g m (instance_of o s c body) rest pos h =
    let r4 = body ++ rest in
    let r3 = bytes_of 4 (length body) ++ r4 in
    let r2 = bytes_of 8 c ++ r3 in
    let r1 = bytes_of 4 s ++ r2 in
    rw
      (
        unsigned-bytes_of 1 sub_instance (bytes_of 8 o ++ r1) pos (omega arith),
        unsigned-bytes_of 8 o r1 (pos + 1) (omega (arith, h.0)),
        unsigned-bytes_of 4 s r2 (pos + 1 + 8) (omega (arith, h.1)),
        unsigned-bytes_of 8 c r3 (pos + 1 + 8 + 4) (omega (arith, h.2)),
        unsigned-bytes_of 4 (length body) r4 (pos + 1 + 8 + 4 + 8) (omega (arith, h.3)),
        skip-append (length body) body rest (pos + 1 + 8 + 4 + 8 + 4) refl,
      )
      (end_at _ m rest _ _ (omega arith))
read_sub-write g m (obj_array o s c n body) rest pos h =
    let r4 = body ++ rest in
    let r3 = bytes_of 8 c ++ r4 in
    let r2 = bytes_of 4 n ++ r3 in
    let r1 = bytes_of 4 s ++ r2 in
    rw
      (
        unsigned-bytes_of 1 sub_obj_array (bytes_of 8 o ++ r1) pos (omega arith),
        unsigned-bytes_of 8 o r1 (pos + 1) (omega (arith, h.0)),
        unsigned-bytes_of 4 s r2 (pos + 1 + 8) (omega (arith, h.1)),
        unsigned-bytes_of 4 n r3 (pos + 1 + 8 + 4) (omega (arith, h.3)),
        unsigned-bytes_of 8 c r4 (pos + 1 + 8 + 4 + 4) (omega (arith, h.2)),
        skip-append (n * 8) body rest (pos + 1 + 8 + 4 + 4 + 8) h.4,
        h.4,
      )
      (end_at _ m rest _ _ (omega arith))
read_sub-write g m (prim_array o s t n body) rest pos h =
    let r4 = body ++ rest in
    let r3 = bytes_of 1 t ++ r4 in
    let r2 = bytes_of 4 n ++ r3 in
    let r1 = bytes_of 4 s ++ r2 in
    rw
      (
        unsigned-bytes_of 1 sub_prim_array (bytes_of 8 o ++ r1) pos (omega arith),
        unsigned-bytes_of 8 o r1 (pos + 1) (omega (arith, h.0)),
        unsigned-bytes_of 4 s r2 (pos + 1 + 8) (omega (arith, h.1)),
        unsigned-bytes_of 4 n r3 (pos + 1 + 8 + 4) (omega (arith, h.3)),
        unsigned-bytes_of 1 t r4 (pos + 1 + 8 + 4 + 4) (omega (arith, h.2)),
        h.4.1,
        skip-append (n * h.4.0) body rest (pos + 1 + 8 + 4 + 4 + 1) h.4.2,
        h.4.2,
      )
      (end_at _ m rest _ _ (omega arith))

abbrev pub write_all : List HeapObject → List ℕ → List ℕ
write_all [] rest = rest
write_all (o ∷ os) rest = write o (write_all os rest)

abbrev pub length_all : List HeapObject → ℕ
length_all [] = 0
length_all (o ∷ os) = length_of o + length_all os

abbrev pub added_all : Graph → ℕ → List HeapObject → Graph
added_all g pos [] = g
added_all g pos (o ∷ os) = added_all (added g (pos + 1) o) (pos + length_of o) os

read_segment-step :
    (fuel end : ℕ) (g : Graph) (m : Meta) (d : Reader)
    → d.pos < end
    → read_segment (suc fuel) end g m d
      ≡ (read_sub g m d >>= λ r. read_segment fuel end r.0 r.1 r.2)
unfolding read_segment
read_segment-step fuel end g m d h =
    ap
      (λ (b : Bool). elim b [
        | false ↦ some (g, m, d)
        | true ↦ read_sub g m d >>= λ r. read_segment fuel end r.0 r.1 r.2
      ])
      (lt→ltb d.pos end h)

length_of-positive : (o : HeapObject) → 0 < length_of o
length_of-positive (instance_of o s c body) = omega arith
length_of-positive (obj_array o s c n body) = omega arith
length_of-positive (prim_array o s t n body) = omega arith

read_segment_ends :
    (fuel end : ℕ) (g : Graph) (m : Meta) (d : Reader)
    → end ≤ d.pos
    → read_segment fuel end g m d ≡ some (g, m, d)
unfolding read_segment
read_segment_ends zero end g m d h = ground arith
read_segment_ends (suc fuel) end g m d h = ground arith

-- The first pass over a segment of instances and arrays, written in the HPROF format and with
-- numbers that fit their fields, adds just these objects, in their order, with identifier, class
-- or type, the low 32 bits of 16 and the length of the contents as size, kind, and the file offset
-- after the tag; nothing else changes, and the pass stops at the end of the segment. As many turns
-- as objects are enough.
pub read_segment-write_all :
    (os : List HeapObject) (fuel end : ℕ) (g : Graph) (m : Meta) (rest : List ℕ) (pos : ℕ)
    → All Fits os
    → length os ≤ fuel
    → end ≡ pos + length_all os
    → read_segment fuel end g m (at_bytes (write_all os rest) pos)
      ≡ some (added_all g pos os, m, at_bytes rest end)
read_segment-write_all [] fuel end g m rest pos h enough e =
    read_segment_ends fuel end g m (at_bytes rest pos) (omega (arith, e))
    ∙ end_at g m rest pos end (omega (arith, e))
read_segment-write_all (o ∷ os) zero end g m rest pos h enough e = absurd (omega (arith, enough))
read_segment-write_all (o ∷ os) (suc fuel) end g m rest pos h enough e =
    read_segment-step fuel end g m (at_bytes (write_all (o ∷ os) rest) pos)
      (omega (arith, e, length_of-positive o))
    ∙ rw (read_sub-write g m o (write_all os rest) pos h.0) (
        read_segment-write_all os fuel end (added g (pos + 1) o) m rest (pos + length_of o) h.1
          (omega (arith, enough)) (omega (arith, e)))
