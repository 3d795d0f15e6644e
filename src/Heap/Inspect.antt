-- ===== src/Heap/Inspect.antt =====
-- heapdump/hprofx/inspect.go: the contents of an object, read back from the dump. A nil slice is an
-- empty list, and `none` is a panic, but for `read_at`.
pub mod Refers
use rootforge.Prelude.{
  ℕ, zero, suc, ◌+◌, ◌*◌, not, ◌&&◌, ◌||◌, Bool, true, false, Option, none, some, List, [], ◌∷◌,
  length, take, ltb, ◌==◌, if◌then◌else◌, get,
}
use rootforge.Text.{Text, text, text_eq}
use rootforge.Hprof.Reader.{type_size, big_endian, split, ◌>>=◌}
use rootforge.Hprof.Names.{drop}
use rootforge.Hprof.Classes.{FieldDesc, ClassInfo, Meta}
use rootforge.Heap.Graph.{Graph}
use rootforge.Heap.Objects.{kind_class, kind_instance, kind_obj_array, kind_prim_array}
use rootforge.Heap.Edges.{layout_of}

pub record FieldValue : Type 0 where
  pub name : Text
  pub type : ℕ
  pub raw : ℕ

-- Graph.readAt over the bytes of the dump; nil is `none`, if there are fewer bytes.
unfoldable pub read_at : List ℕ → ℕ → ℕ → Option (List ℕ)
read_at file off n = elim (split n (drop off file)) [ none ↦ none | some (b, rest) ↦ some b ]

-- The big-endian number of w bytes at an offset.
abbrev pub uint_at : ℕ → List ℕ → ℕ → ℕ
uint_at w body off = big_endian 0 (take w (drop off body))

-- The switch on the type of a field.
abbrev pub raw_value : ℕ → List ℕ → ℕ → ℕ
raw_value type body off =
    if type == 2
    then uint_at 8 body off
    else if type == 4 || type == 8
    then uint_at 1 body off
    else if type == 5 || type == 9
    then uint_at 2 body off
    else if type == 6 || type == 10
    then uint_at 4 body off
    else if type == 7 || type == 11
    then uint_at 8 body off
    else 0

-- The loop over the layout, until the body ends.
unfoldable pub fields_from : List ℕ → ℕ → List FieldDesc → Option (List FieldValue)
fields_from body off [] = some []
fields_from body off (f ∷ layout) = type_size f.typ >>= λ w. elim (ltb (length body) (off + w)) [
  | true ↦ some []
  | false ↦ fields_from body (off + w) layout >>= λ rest.
      some (record { name = f.name; type = f.typ; raw = raw_value f.typ body off } ∷ rest)
]

abbrev pub fields_of : Option (List ℕ) → List FieldDesc → Option (List FieldValue)
fields_of none layout = some []
fields_of (some body) layout = fields_from body 0 layout

abbrev pub fields_at : List ℕ → Meta → ℕ → Option (List ℕ) → Option (List FieldValue)
fields_at file m off none = some []
fields_at file m off (some head) =
    fields_of (read_at file (off + 24) (uint_at 4 head 20))
      (layout_of (m.classes (uint_at 8 head 12)))

-- Graph.Fields.
unfoldable pub fields : List ℕ → Meta → Graph → ℕ → Option (List FieldValue)
fields file m g i = get g.kind i >>= λ kind.
    if not (kind == kind_instance)
    then some []
    else (get g.offset i >>= λ off. fields_at file m off (read_at file off 24))

abbrev pub named_field : Text → List FieldValue → Option FieldValue
named_field name [] = none
named_field name (f ∷ fs) = if text_eq f.name name then some f else named_field name fs

-- Graph.Field; the inner `none` is not found.
unfoldable pub field : List ℕ → Meta → Graph → ℕ → Text → Option (Option FieldValue)
field file m g i name = fields file m g i >>= λ fs. some (named_field name fs)

abbrev pub length_at : Option (List ℕ) → ℕ
length_at none = 0
length_at (some h) = big_endian 0 h

-- Graph.ArrayLen.
unfoldable pub array_len : List ℕ → Graph → ℕ → Option ℕ
array_len file g i = get g.kind i >>= λ kind.
    if kind == kind_obj_array || kind == kind_prim_array
    then (get g.offset i >>= λ off. some (length_at (read_at file (off + 12) 4)))
    else some 0

-- The loop over n items, from the item k on.
abbrev pub elems_from : List ℕ → ℕ → ℕ → List ℕ
elems_from b k zero = []
elems_from b k (suc n) = uint_at 8 b (k * 8) ∷ elems_from b (suc k) n

abbrev pub elems_of : ℕ → Option (List ℕ) → List ℕ
elems_of n none = []
elems_of n (some b) = elems_from b 0 n

-- Graph.ArrayElems, for a number of items that is not negative.
unfoldable pub array_elems : List ℕ → Graph → ℕ → ℕ → Option (List ℕ)
array_elems file g i max = get g.kind i >>= λ kind.
    if not (kind == kind_obj_array)
    then some []
    else (array_len file g i >>= λ len.
        let n = if ltb max len then max else len in
        get g.offset i >>= λ off. some (elems_of n (read_at file (off + 24) (n * 8))))

-- Graph.PrimBytes: the bytes, or nil, and the type.
abbrev pub prim_bytes_at : List ℕ → ℕ → ℕ → Option (List ℕ) → Option (Option (List ℕ) × ℕ)
prim_bytes_at file off max none = some (none, 0)
prim_bytes_at file off max (some h) =
    let type = uint_at 1 h 4 in
    type_size type >>= λ w.
    let total = uint_at 4 h 0 * w in
    some (read_at file (off + 17) (if ltb max total then max else total), type)

unfoldable pub prim_bytes : List ℕ → Graph → ℕ → ℕ → Option (Option (List ℕ) × ℕ)
prim_bytes file g i max = get g.kind i >>= λ kind.
    if not (kind == kind_prim_array)
    then some (none, 0)
    else (get g.offset i >>= λ off. prim_bytes_at file off max (read_at file (off + 12) 5))

-- The loop of Graph.isEnum, with the number of hops that are left.
unfoldable pub enum_from : Meta → ℕ → ℕ → Bool
enum_from m zero cid = false
enum_from m (suc hops) cid = if cid == 0 then false else (elim (m.classes cid) [
  | none ↦ false
  | some c ↦ text_eq c.name (text "java.lang.Enum") || enum_from m hops c.super
])

abbrev pub is_enum : Meta → ℕ → Bool
is_enum m cid = enum_from m 16 cid

abbrev pub label_of : ℕ → List FieldValue → Text
label_of want [] = []
label_of want (f ∷ fs) = if f.type == 2 && f.raw == want then b'.' ∷ f.name else label_of want fs

abbrev pub index_label : (ℕ → Text) → ℕ → ℕ → List ℕ → Text
index_label shown want k [] = []
index_label shown want k (e ∷ es) = if e == want then shown k else index_label shown want (suc k) es

-- Graph.EdgeLabel; `shown` is Sprintf("[%d]", …).
unfoldable pub edge_label : (ℕ → Text) → List ℕ → Meta → Graph → ℕ → ℕ → Option Text
edge_label shown file m g parent child = get g.kind parent >>= λ kind.
    if kind == kind_instance
    then (get g.ids child >>= λ want. fields file m g parent >>= λ fs. some (label_of want fs))
    else if kind == kind_obj_array
    then (get g.ids child >>= λ want.
        array_elems file g parent 1048576 >>= λ es. some (index_label shown want 0 es))
    else if kind == kind_class
    then some (text " (static)")
    else some []

-- printableRune, on ASCII and other bytes.
abbrev pub printable_rune : ℕ → ℕ
printable_rune c = if not (ltb c 32) && ltb c 127 then c else b'.'

-- shortName.
abbrev pub after_dot : Text → Option Text
after_dot [] = none
after_dot (c ∷ s) = elim (after_dot s) [
  | some t ↦ some t
  | none ↦ if c == b'.' then some s else none
]

unfoldable pub short_name : Text → Text
short_name s = elim (after_dot s) [ none ↦ s | some t ↦ t ]
