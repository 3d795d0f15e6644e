-- ===== src/Heap/Objects/Size.antt =====
-- The shallow sizes of BuildGraph in heapdump/hprofx/graph.go, which are int32.
use rootforge.Prelude.{
  ℕ, ◌+◌, ◌-◌, ◌*◌, ◌/◌, ◌%◌, ◌^◌, ◌<◌, ◌≡◌, ◌↔◌, sym, some, List, Slice, append, ltb,
  if◌then◌else◌, arith,
}
use rootforge.Prelude.Int.{ℤ, pos, negsuc}
use mathlib.Core.Path.{subst}
use rootforge.Hprof.Reader.{Reader}
use rootforge.Hprof.Opens.{at_bytes}
use rootforge.Hprof.Classes.{Meta}
use rootforge.Heap.Graph.{Graph}
use rootforge.Heap.Objects.{read_sub}
use rootforge.Heap.Objects.RoundTrip.{
  HeapObject, write, Fits, added, content_length, length_of, read_sub-write,
}

appended : (s : Slice ℕ) (x : ℕ) → (append s x).at s.len ≡ x
appended s x = ground arith

-- The number that the 32 bits of an int32 stand for.
abbrev pub signed : ℕ → ℤ
signed bits = if ltb bits (2 ^ 31) then pos bits else negsuc (2 ^ 32 - 1 - bits)

-- The bits of an int32 that stand for this number where it is small enough, and otherwise for one
-- that differs by a multiple of 2 ^ 32.
abbrev pub WrapsTo : ℕ → ℕ → Type 0
WrapsTo n bits =
    (bits < 2 ^ 32) × ((q : ℕ) × (n ≡ bits + q * 2 ^ 32)) × ((signed bits ≡ pos n) ↔ (n < 2 ^ 31))

mod-WrapsTo : (n : ℕ) → WrapsTo n (n % 2 ^ 32)
mod-WrapsTo n =
    (omega arith, (n / 2 ^ 32, omega arith), (λ h. ground (arith, h), λ h. ground (arith, h)))

-- The shallow size that the first pass stores for an instance or array whose numbers fit their
-- fields is 16 and the bytes of its contents, as an int32: it has 32 bits, differs from that sum
-- by a multiple of 2 ^ 32, and is it, as a signed number, exactly if the sum is below 2 ^ 31.
pub read_sub-size :
    (g : Graph) (m : Meta) (o : HeapObject) (rest : List ℕ) (at : ℕ)
    → Fits o
    → (next : Graph) × (e : Reader) × (read_sub g m (at_bytes (write o rest) at)
        ≡ some (next, m, e))
      × WrapsTo (16 + content_length o) (next.size.at g.size.len)
read_sub-size g m o rest at h = (
  added g (at + 1) o,
  at_bytes rest (at + length_of o),
  read_sub-write g m o rest at h,
  subst (WrapsTo (16 + content_length o)) (sym (appended g.size _))
      (mod-WrapsTo (16 + content_length o)),
)
