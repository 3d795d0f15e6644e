-- ===== src/Heap/Roots.antt =====
-- The GC roots of a dump, as skipRoot of heapdump/hprofx/hprof.go passes over them.
use rootforge.Prelude.{
  ℕ, ◌+◌, ◌^◌, ◌<◌, ◌≡◌, ◌≢◌, refl, ap, some, true, false, Bool, List, ◌++◌, arith, ◌==◌, ◌||◌,
}
use mathlib.Core.Path.{subst}
use rootforge.Hprof.Reader.{Parsed}
use rootforge.Hprof.Opens.{at_bytes}
use rootforge.Hprof.Root.{skip_root}
use rootforge.Heap.Objects.Reads.{bytes_of, unsigned-bytes_of}

-- The root records of the HPROF format, each with the object it keeps alive, and the record by which
-- Android tells its heaps apart, which keeps no object alive.
pub data Root : Type 0 where
  unknown sticky_class monitor_used : (object : ℕ) → Root
  jni_global : (object reference : ℕ) → Root
  jni_local java_frame : (object thread frame : ℕ) → Root
  thread_object : (object thread trace : ℕ) → Root
  native_stack thread_block : (object thread : ℕ) → Root
  heap_info : (heap name : ℕ) → Root

abbrev pub tag_of : Root → ℕ
tag_of (unknown o) = 0xFF
tag_of (jni_global o r) = 0x01
tag_of (jni_local o t f) = 0x02
tag_of (java_frame o t f) = 0x03
tag_of (native_stack o t) = 0x04
tag_of (sticky_class o) = 0x05
tag_of (thread_block o t) = 0x06
tag_of (monitor_used o) = 0x07
tag_of (thread_object o t s) = 0x08
tag_of (heap_info h n) = 0xFE

-- The object, or 0 for none.
abbrev pub object_of : Root → ℕ
object_of (unknown o) = o
object_of (jni_global o r) = o
object_of (jni_local o t f) = o
object_of (java_frame o t f) = o
object_of (native_stack o t) = o
object_of (sticky_class o) = o
object_of (thread_block o t) = o
object_of (monitor_used o) = o
object_of (thread_object o t s) = o
object_of (heap_info h n) = 0

abbrev one_id : ℕ → List ℕ → List ℕ
one_id o rest = bytes_of 8 o ++ rest

abbrev id_number : ℕ → ℕ → List ℕ → List ℕ
id_number o t rest = bytes_of 8 o ++ (bytes_of 4 t ++ rest)

abbrev id_numbers : ℕ → ℕ → ℕ → List ℕ → List ℕ
id_numbers o t f rest = bytes_of 8 o ++ (bytes_of 4 t ++ (bytes_of 4 f ++ rest))

-- The bytes after the tag, before those of the rest.
abbrev pub write_root : Root → List ℕ → List ℕ
write_root (unknown o) rest = one_id o rest
write_root (jni_global o r) rest = bytes_of 8 o ++ (bytes_of 8 r ++ rest)
write_root (jni_local o t f) rest = id_numbers o t f rest
write_root (java_frame o t f) rest = id_numbers o t f rest
write_root (native_stack o t) rest = id_number o t rest
write_root (sticky_class o) rest = one_id o rest
write_root (thread_block o t) rest = id_number o t rest
write_root (monitor_used o) rest = one_id o rest
write_root (thread_object o t s) rest = id_numbers o t s rest
write_root (heap_info h n) rest = bytes_of 4 h ++ (bytes_of 8 n ++ rest)

abbrev pub root_length : Root → ℕ
root_length (unknown o) = 8
root_length (jni_global o r) = 16
root_length (jni_local o t f) = 16
root_length (java_frame o t f) = 16
root_length (native_stack o t) = 12
root_length (sticky_class o) = 8
root_length (thread_block o t) = 12
root_length (monitor_used o) = 8
root_length (thread_object o t s) = 16
root_length (heap_info h n) = 12

-- The numbers fit their fields.
abbrev pub RootFits : Root → Type 0
RootFits (unknown o) = o < 2 ^ 64
RootFits (jni_global o r) = (o < 2 ^ 64) × (r < 2 ^ 64)
RootFits (jni_local o t f) = (o < 2 ^ 64) × (t < 2 ^ 32) × (f < 2 ^ 32)
RootFits (java_frame o t f) = (o < 2 ^ 64) × (t < 2 ^ 32) × (f < 2 ^ 32)
RootFits (native_stack o t) = (o < 2 ^ 64) × (t < 2 ^ 32)
RootFits (sticky_class o) = o < 2 ^ 64
RootFits (thread_block o t) = (o < 2 ^ 64) × (t < 2 ^ 32)
RootFits (monitor_used o) = o < 2 ^ 64
RootFits (thread_object o t s) = (o < 2 ^ 64) × (t < 2 ^ 32) × (s < 2 ^ 32)
RootFits (heap_info h n) = (h < 2 ^ 32) × (n < 2 ^ 64)

-- What skipRoot returns of a root, having read so many bytes.
abbrev root_at : ℕ → List ℕ → ℕ → Parsed (ℕ × Bool)
root_at object rest pos = some ((object, true), at_bytes rest pos)

root_end :
    (object : ℕ) (rest : List ℕ) (p q : ℕ) → p ≡ q → root_at object rest p ≡ root_at object rest q
root_end object rest p q e = ap (λ (k : ℕ). root_at object rest k) e

-- The tags whose record is an identifier and two numbers, and those with one number.
abbrev has_numbers : ℕ → Bool
has_numbers tag = tag == 0x02 || tag == 0x03 || tag == 0x08

skip_numbers :
    (tag o t f : ℕ) (rest : List ℕ) (pos : ℕ)
    → has_numbers tag ≡ true
    → (o < 2 ^ 64) × (t < 2 ^ 32) × (f < 2 ^ 32)
    → skip_root tag (at_bytes (id_numbers o t f rest) pos) ≡ root_at o rest (pos + 16)
unfolding skip_root
skip_numbers tag o t f rest pos is h =
    let not_unknown : (tag == 0xFF) ≡ false = ground arith in
    let not_global : (tag == 0x01) ≡ false = ground arith in
    let r2 = bytes_of 4 f ++ rest in
    let r1 = bytes_of 4 t ++ r2 in
    rw
      (
        not_unknown,
        not_global,
        is,
        unsigned-bytes_of 8 o r1 pos (omega (arith, h.0)),
        unsigned-bytes_of 4 t r2 (pos + 8) (omega (arith, h.1)),
        unsigned-bytes_of 4 f rest (pos + 8 + 4) (omega (arith, h.2)),
      )
      (root_end o rest _ _ (omega arith))

skip_number :
    (tag o t : ℕ) (rest : List ℕ) (pos : ℕ)
    → (tag == 0x04 || tag == 0x06) ≡ true
    → (o < 2 ^ 64) × (t < 2 ^ 32)
    → skip_root tag (at_bytes (id_number o t rest) pos) ≡ root_at o rest (pos + 12)
unfolding skip_root
skip_number tag o t rest pos is h =
    let not_unknown : (tag == 0xFF) ≡ false = ground arith in
    let not_global : (tag == 0x01) ≡ false = ground arith in
    let not_numbers : has_numbers tag ≡ false = ground arith in
    let r1 = bytes_of 4 t ++ rest in
    rw
      (
        not_unknown,
        not_global,
        not_numbers,
        is,
        unsigned-bytes_of 8 o r1 pos (omega (arith, h.0)),
        unsigned-bytes_of 4 t rest (pos + 8) (omega (arith, h.1)),
      )
      (root_end o rest _ _ (omega arith))

read_root :
    (r : Root) (rest : List ℕ) (pos : ℕ)
    → RootFits r
    → skip_root (tag_of r) (at_bytes (write_root r rest) pos)
      ≡ root_at (object_of r) rest (pos + root_length r)
unfolding skip_root
read_root (unknown o) rest pos h = rw (unsigned-bytes_of 8 o rest pos (omega (arith, h))) refl
read_root (sticky_class o) rest pos h = rw (unsigned-bytes_of 8 o rest pos (omega (arith, h))) refl
read_root (monitor_used o) rest pos h = rw (unsigned-bytes_of 8 o rest pos (omega (arith, h))) refl
read_root (jni_local o t f) rest pos h = skip_numbers 0x02 o t f rest pos refl h
read_root (java_frame o t f) rest pos h = skip_numbers 0x03 o t f rest pos refl h
read_root (thread_object o t s) rest pos h = skip_numbers 0x08 o t s rest pos refl h
read_root (native_stack o t) rest pos h = skip_number 0x04 o t rest pos refl h
read_root (thread_block o t) rest pos h = skip_number 0x06 o t rest pos refl h
read_root (jni_global o r) rest pos h =
    let r1 = bytes_of 8 r ++ rest in
    rw
      (
        unsigned-bytes_of 8 o r1 pos (omega (arith, h.0)),
        unsigned-bytes_of 8 r rest (pos + 8) (omega (arith, h.1)),
      )
      (root_end o rest _ _ (omega arith))
read_root (heap_info n m) rest pos h =
    let r1 = bytes_of 8 m ++ rest in
    rw
      (
        unsigned-bytes_of 4 n r1 pos (omega (arith, h.0)),
        unsigned-bytes_of 8 m rest (pos + 4) (omega (arith, h.1)),
      )
      (root_end 0 rest _ _ (omega arith))

-- skipRoot passes over the bytes that follow the tag of a root record of the HPROF format, or of
-- the heap marker of Android, whose numbers fit their fields, and returns the object of the
-- record, or 0 for the marker. Before any other tag it moves past nothing and takes it for no
-- root.
pub skip_root-Root :
    (tag : ℕ) (rest : List ℕ) (pos : ℕ)
    → ((r : Root)
        → tag_of r ≡ tag
        → RootFits r
        → skip_root tag (at_bytes (write_root r rest) pos)
          ≡ some ((object_of r, true), at_bytes rest (pos + root_length r)))
      × (((r : Root) → tag_of r ≢ tag)
          → skip_root tag (at_bytes rest pos) ≡ some ((0, false), at_bytes rest pos))
unfolding skip_root
skip_root-Root tag rest pos = (
  λ r is fits.
      subst
        (λ (k : ℕ).
          skip_root k (at_bytes (write_root r rest) pos)
          ≡ root_at (object_of r) rest (pos + root_length r))
        is (read_root r rest pos fits),
  λ other. ground (
    arith,
    other (unknown 0),
    other (jni_global 0 0),
    other (jni_local 0 0 0),
    other (java_frame 0 0 0),
    other (native_stack 0 0),
    other (sticky_class 0),
    other (thread_block 0 0),
    other (monitor_used 0),
    other (thread_object 0 0 0),
    other (heap_info 0 0),
  ),
)
