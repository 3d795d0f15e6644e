-- ===== src/Tests/Objects.antt =====
-- Runs over the objects of a small dump.
use rootforge.Prelude.{
  ℕ, ◌+◌, ◌≡◌, ◌≢◌, true, false, refl, sym, ◌==◌, ==_iff, if◌then◌else◌, Bool-cases, inl, inr, none,
  some, [], ◌∷◌, All, arith, List, ◌++◌,
}
use rootforge.Text.{text}
use rootforge.Hprof.Reader.{Reader, type_size}
use rootforge.Hprof.Opens.{at_bytes}
use rootforge.Hprof.Classes.{ClassInfo, FieldDesc, Meta, class_or_new}
use rootforge.Heap.Lookup.Items.{Has}
use rootforge.Hprof.Layouts.{build_layouts}
use rootforge.Hprof.Layouts.Steps.{Extends, HasLayout}
use rootforge.Hprof.Layouts.Flat.{build_layouts-HasLayout}
use rootforge.Hprof.Names.{normalize_class_name}
use rootforge.Hprof.Names.Types.{array, class_type, source_name, normalize_class_name-descriptor}
use rootforge.Hprof.LoadMeta.{nothing_loaded, load_segment}
use rootforge.Hprof.Reader.{◌>>=◌}
use rootforge.Heap.Edges.{no_references, emit_fields, emit_all}
use rootforge.Heap.Inspect.{fields_from}
use rootforge.Heap.Inspect.Refers.{references, emit_fields-fields_from}
use rootforge.Heap.Objects.Reads.{bytes_of}
use rootforge.Heap.Graph.{Graph}
use rootforge.Heap.Objects.{empty_graph, read_sub, read_segment}
use rootforge.Heap.Objects.RoundTrip.{
  HeapObject, instance_of, prim_array, Fits, write, write_all, added_all, read_segment-write_all,
}
use rootforge.Hprof.Root.{skip_root}
use rootforge.Heap.Roots.{
  Root, tag_of, object_of, write_root, root_length, RootFits, skip_root-Root,
}
use rootforge.Heap.Objects.Size.{WrapsTo, read_sub-size}
use rootforge.Heap.Passes.{of_pass, of_load, read_segment-load_segment}

normalize_class_name-descriptor_example :
    normalize_class_name (text "[[Ljava/lang/String;")
    ≡ source_name (array (array (class_type (text "java/lang/String"))))
normalize_class_name-descriptor_example =
    normalize_class_name-descriptor (array (class_type (text "java/lang/String")))

-- An instance of 2 bytes, and 2 shorts.
abbrev point : HeapObject
point = instance_of 7 0 9 (1 ∷ 2 ∷ [])

abbrev shorts : HeapObject
shorts = prim_array 8 0 9 2 (1 ∷ 2 ∷ 3 ∷ 4 ∷ [])

abbrev no_meta : Meta
no_meta = nothing_loaded.meta

objects-Fits : All Fits (point ∷ shorts ∷ [])
unfolding type_size
objects-Fits = (
  (omega arith, omega arith, omega arith, omega arith),
  ((omega arith, omega arith, omega arith, omega arith, (2, refl, refl)), tt),
)

-- The tag of a thread that holds a monitor.
skip_root-Root_example :
    ((r : Root)
      → tag_of r ≡ 6
      → RootFits r
      → skip_root 6 (at_bytes (write_root r (5 ∷ [])) 9)
        ≡ some ((object_of r, true), at_bytes (5 ∷ []) (9 + root_length r)))
    × (((r : Root) → tag_of r ≢ 6)
        → skip_root 6 (at_bytes (5 ∷ []) 9) ≡ some ((0, false), at_bytes (5 ∷ []) 9))
skip_root-Root_example = skip_root-Root 6 (5 ∷ []) 9

read_segment-write_all_example :
    read_segment 2 59 empty_graph no_meta (at_bytes (write_all (point ∷ shorts ∷ []) (5 ∷ [])) 10)
    ≡ some (added_all empty_graph 10 (point ∷ shorts ∷ []), no_meta, at_bytes (5 ∷ []) 59)
read_segment-write_all_example =
    read_segment-write_all (point ∷ shorts ∷ []) 2 59 empty_graph no_meta (5 ∷ []) 10 objects-Fits
      (omega arith) refl

read_sub-size_example :
    (next : Graph) × (e : Reader) × (read_sub empty_graph no_meta (at_bytes (write point []) 10)
      ≡ some (next, no_meta, e))
    × WrapsTo 18 (next.size.at 0)
read_sub-size_example = read_sub-size empty_graph no_meta point [] 10 (objects-Fits.0)

read_segment-load_segment_example :
    of_pass
      (read_segment 2 59 empty_graph no_meta (at_bytes (write_all (point ∷ shorts ∷ []) []) 10))
    ≡ of_load (load_segment 2 59 nothing_loaded (at_bytes (write_all (point ∷ shorts ∷ []) []) 10))
read_segment-load_segment_example =
    read_segment-load_segment 2 59 empty_graph nothing_loaded
      (at_bytes (write_all (point ∷ shorts ∷ []) []) 10)

-- Two classes, each the superclass of the other.
abbrev odd : ClassInfo
odd = record (class_or_new 1 none) { super = 2; fields = record { name = text "x"; typ = 10 } ∷ [] }

abbrev even : ClassInfo
even = record (class_or_new 2 none) { super = 1; fields = record { name = text "y"; typ = 2 } ∷ [] }

abbrev cyclic : Meta
cyclic = record {
  strings = λ k. [];
  classes = λ k. if k == 1 then some odd else if k == 2 then some even else none;
}

cyclic-classes :
    (k : ℕ) (c : ClassInfo) → cyclic.classes k ≡ some c → (Has k (1 ∷ 2 ∷ [])) × (c.layout ≡ none)
cyclic-classes k c found = elim (Bool-cases (k == 1)) [
  | inl first ↦
      let is : odd ≡ c = cc (rw first at found) in
      ((0, omega arith, sym ((==_iff k 1).0 first)), rw (sym is) refl)
  | inr other ↦ elim (Bool-cases (k == 2)) [
    | inl second ↦
        let is : even ≡ c = cc (rw (other, second) at found) in
        ((1, omega arith, sym ((==_iff k 2).0 second)), rw (sym is) refl)
    | inr none_is ↦ absurd (cc (rw (other, none_is) at found))
  ]
]

build_layouts-HasLayout_example :
    (n : Meta) × (build_layouts (1 ∷ 2 ∷ []) cyclic ≡ some n)
    × ((k : ℕ) (c : ClassInfo)
        → cyclic.classes k ≡ some c
        → HasLayout n.classes k × (d : ClassInfo) × (n.classes k ≡ some d) × Extends c d)
build_layouts-HasLayout_example =
    build_layouts-HasLayout (1 ∷ 2 ∷ []) cyclic (λ k c e. (cyclic-classes k c e).0)
      (λ k c l e flat. absurd (cc ((cyclic-classes k c e).1, flat)))

-- An instance with an int and a reference.
abbrev two_fields : List FieldDesc
two_fields = record { name = text "n"; typ = 10 } ∷ record { name = text "o"; typ = 2 } ∷ []

abbrev two_values : List ℕ
two_values = bytes_of 4 6 ++ bytes_of 8 3

emit_fields-fields_from_example :
    emit_fields empty_graph (some 0) two_values 0 two_fields no_references ≡ (
      fields_from two_values 0 two_fields >>= λ fs.
      emit_all empty_graph (some 0) (references fs) no_references)
emit_fields-fields_from_example =
    emit_fields-fields_from empty_graph (some 0) two_values 0 two_fields no_references
