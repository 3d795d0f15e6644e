-- ===== src/Hprof/LoadMeta.antt =====
-- LoadMeta of heapdump/hprofx/hprof.go, but for buildLayouts.
use rootforge.Prelude.{
  ℕ, zero, suc, ◌+◌, ◌-◌, ◌%◌, ◌^◌, ◌||◌, Bool, true, false, Option, none, some, List, [], ◌∷◌,
  ◌++◌, length, ltb, ◌==◌, if◌then◌else◌,
}
use rootforge.Text.{Text, text}
use rootforge.Hprof.Reader.{Reader, Parsed, id, u1, u4, must, skip, ◌>>=◌}
use rootforge.Hprof.Root.{skip_root}
use rootforge.Hprof.Classes.{ClassInfo, Meta, class_or_new, read_class_dump, skip_object_body}
use rootforge.Hprof.Names.{normalize_class_name, args_of, line_label}

pub record ThreadRef : Type 0 where
  pub obj_id : ℕ
  pub serial : ℕ
  pub stack_serial : ℕ

-- The Meta, with the maps and slices that only LoadMeta writes. A root kind is its tag, which
-- rootTagName names.
pub record Loaded : Type 0 where
  pub meta : Meta
  pub by_ser : ℕ → Text
  pub frames : ℕ → Text
  pub traces : ℕ → List ℕ
  pub threads : List ThreadRef
  pub root_ids : List ℕ
  pub root_kinds : ℕ → ℕ

abbrev pub Load : Type 0
Load = Option (Loaded × Reader)

abbrev pub set : {A : Type 0} → (ℕ → A) → ℕ → A → ℕ → A
set f k v = λ j. if j == k then v else f j

abbrev pub tag_string : ℕ
tag_string = 0x01

abbrev pub tag_load_class : ℕ
tag_load_class = 0x02

abbrev pub tag_stack_frame : ℕ
tag_stack_frame = 0x04

abbrev pub tag_stack_trace : ℕ
tag_stack_trace = 0x05

-- A length below 8 makes the size of the slice negative, which panics.
unfoldable pub load_string : ℕ → Loaded → Reader → Load
load_string len s d = id d >>= λ i.
    if ltb len 8
    then none
    else (must (len - 8) i.1 >>= λ bytes.
        some
          (record s { meta = record s.meta { strings = set s.meta.strings i.0 bytes.0 } }, bytes.1))

unfoldable pub with_name : Text → ClassInfo → ClassInfo
with_name name c = record c { name = name }

unfoldable pub load_class : Loaded → Reader → Load
load_class s d = u4 d >>= λ serial. id serial.1 >>= λ cid. u4 cid.1 >>= λ stack. id stack.1 >>= λ i.
    let name = normalize_class_name (s.meta.strings i.0) in
    let c = with_name name (class_or_new cid.0 (s.meta.classes cid.0)) in
    some (
      record s {
        by_ser = set s.by_ser serial.0 name;
        meta = record s.meta { classes = set s.meta.classes cid.0 (some c) };
      },
      i.1,
    )

-- Sprintf("%s.%s%s (%s:%s)", …).
abbrev pub frame_text : Text → Text → Text → Text → Text → Text
frame_text class method args source line =
    class ++ text "." ++ method ++ args ++ text " (" ++ source ++ text ":" ++ line ++ text ")"

-- `print` is fmt.Sprint of an int32.
unfoldable pub load_frame : (ℕ → Text) → Loaded → Reader → Load
load_frame print s d = id d >>= λ f. id f.1 >>= λ method. id method.1 >>= λ sig.
    id sig.1 >>= λ source. u4 source.1 >>= λ ser. u4 ser.1 >>= λ line.
    let strings = s.meta.strings in
    let shown =
      frame_text (s.by_ser ser.0) (strings method.0) (args_of (strings sig.0)) (strings source.0)
        (line_label print line.0) in
    some (record s { frames = set s.frames f.0 shown }, line.1)

-- The loop over the frames of a trace.
unfoldable pub load_ids : ℕ → Reader → Parsed (List ℕ)
load_ids zero d = some ([], d)
load_ids (suc n) d = id d >>= λ i. load_ids n i.1 >>= λ rest. some (i.0 ∷ rest.0, rest.1)

unfoldable pub load_trace : Loaded → Reader → Load
load_trace s d = u4 d >>= λ serial. u4 serial.1 >>= λ thread. u4 thread.1 >>= λ n.
    load_ids n.0 n.1 >>= λ fs. some (record s { traces = set s.traces serial.0 fs.0 }, fs.1)

-- RootKinds[…]++, of an int64.
abbrev pub count_kind : ℕ → (ℕ → ℕ) → ℕ → ℕ
count_kind tag kinds = set kinds tag ((kinds tag + 1) % 2 ^ 64)

-- A thread object also links a stack trace; it is a root with any identifier.
unfoldable pub load_thread : Loaded → Reader → Load
load_thread s d = id d >>= λ oid. u4 oid.1 >>= λ serial. u4 serial.1 >>= λ stack.
    let thread : ThreadRef = record { obj_id = oid.0; serial = serial.0; stack_serial = stack.0 } in
    some (
      record s {
        threads = s.threads ++ (thread ∷ []);
        root_kinds = count_kind 0x08 s.root_kinds;
        root_ids = s.root_ids ++ (oid.0 ∷ []);
      },
      stack.1,
    )

abbrev pub note_root : ℕ → ℕ → Loaded → Loaded
note_root tag root s = record s {
  root_kinds = count_kind tag s.root_kinds;
  root_ids = if root == 0 then s.root_ids else s.root_ids ++ (root ∷ []);
}

unfoldable pub load_object : ℕ → Loaded → Reader → Load
load_object sub s d =
    if sub == 0x20
    then (read_class_dump s.meta d >>= λ r. some (record s { meta = r.0.1 }, r.1))
    else (skip_object_body sub d >>= λ e. some (s, e))

abbrev pub load_unless_root : ℕ → Loaded → (ℕ × Bool) × Reader → Load
load_unless_root sub s ((root, true), d) = some (note_root sub root s, d)
load_unless_root sub s ((root, false), d) = load_object sub s d

-- One turn of the loop over a segment.
unfoldable pub load_sub : Loaded → Reader → Load
load_sub s d = u1 d >>= λ sub.
    if sub.0 == 0x08
    then load_thread s sub.1
    else (skip_root sub.0 sub.1 >>= λ root. load_unless_root sub.0 s root)

-- The loop over a segment. Each turn reads a byte, so as many turns as bytes are enough.
unfoldable pub load_segment : ℕ → ℕ → Loaded → Reader → Load
load_segment zero end s d = if ltb d.pos end then none else some (s, d)
load_segment (suc fuel) end s d = elim (ltb d.pos end) [
  | false ↦ some (s, d)
  | true ↦ load_sub s d >>= λ r. load_segment fuel end r.0 r.1
]

-- The switch on the tag of a record.
unfoldable pub load_body : (ℕ → Text) → ℕ → ℕ → Loaded → Reader → Load
load_body print tag len s d =
    if tag == tag_string
    then load_string len s d
    else if tag == tag_load_class
    then load_class s d
    else if tag == tag_stack_frame
    then load_frame print s d
    else if tag == tag_stack_trace
    then load_trace s d
    else if tag == 0x0C || tag == 0x1C
    then load_segment (length d.rest) (d.pos + len) s d
    else (skip len d >>= λ e. some (s, e))

unfoldable pub load_record : (ℕ → Text) → Loaded → Reader → Load
load_record print s d =
    u1 d >>= λ tag. u4 tag.1 >>= λ stamp. u4 stamp.1 >>= λ len. load_body print tag.0 len.0 s len.1

-- The loop over the records, of which each takes a byte.
unfoldable pub load_records : (ℕ → Text) → ℕ → ℕ → Loaded → Reader → Load
load_records print zero total s d = if ltb d.pos total then none else some (s, d)
load_records print (suc fuel) total s d = elim (ltb d.pos total) [
  | false ↦ some (s, d)
  | true ↦ load_record print s d >>= λ r. load_records print fuel total r.0 r.1
]

abbrev pub nothing_loaded : Loaded
nothing_loaded = record {
  meta = record { strings = λ k. []; classes = λ k. none };
  by_ser = λ k. [];
  frames = λ k. [];
  traces = λ k. [];
  threads = [];
  root_ids = [];
  root_kinds = λ k. 0;
}

-- LoadMeta over the records that follow the header.
unfoldable pub load_meta : (ℕ → Text) → ℕ → Reader → Load
load_meta print total d = load_records print (length d.rest) total nothing_loaded d
