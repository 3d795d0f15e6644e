-- ===== src/Prelude/Slices.antt =====
-- Go's slices of a fixed length: an index out of range panics, which is `none`.
use Prim.Native.Nat.{ℕ, zero, suc, ◌+◌, ◌-◌, ◌<◌, ◌≤◌}
use mathlib.Core.Path.{◌≡◌, refl, ap, ◌∙◌}
use mathlib.Core.Bool.{◌&&◌}
use mathlib.Core.Option.{Option, none, some}
use mathlib.Core.List.{List, [], ◌∷◌}
use native.Mathlib.Omega.{arith}
use rootforge.Prelude.Tests.{ltb, leb, ◌==◌, if◌then◌else◌, lt→ltb, le→leb}
use rootforge.Prelude.Lists.{length}

-- What an index at or past the length has is never read.
pub record Slice (A : Type 0) : Type 0 where
  pub len : ℕ
  pub at : ℕ → A

module _ {A : Type 0} where
  abbrev pub make : ℕ → A → Slice A
  make n x = record { len = n; at = λ i. x }

  abbrev pub written : Slice A → ℕ → A → Slice A
  written s i x = record s { at = λ j. if j == i then x else s.at j }

  abbrev pub append : Slice A → A → Slice A
  append s x = record { len = suc s.len; at = λ j. if j == s.len then x else s.at j }

  unfoldable pub get : Slice A → ℕ → Option A
  get s i = if ltb i s.len then some (s.at i) else none

  unfoldable pub put : Slice A → ℕ → A → Option (Slice A)
  put s i x = if ltb i s.len then some (written s i x) else none

  abbrev pub items : ℕ → ℕ → Slice A → List A
  items zero i s = []
  items (suc k) i s = s.at i ∷ items k (suc i) s

  -- The expression s[from:to].
  unfoldable pub cut : Slice A → ℕ → ℕ → Option (List A)
  cut s from to = if leb from to && leb to s.len then some (items (to - from) from s) else none

  pub get-lt : (s : Slice A) (i : ℕ) → i < s.len → get s i ≡ some (s.at i)
  unfolding get
  get-lt s i h = rw (lt→ltb i s.len h) refl

  pub put-lt : (s : Slice A) (i : ℕ) (x : A) → i < s.len → put s i x ≡ some (written s i x)
  unfolding put
  put-lt s i x h = rw (lt→ltb i s.len h) refl

  -- The slice holds these items from an index on.
  abbrev pub Holds : Slice A → ℕ → List A → Type 0
  Holds s i [] = Unit
  Holds s i (x ∷ xs) = (s.at i ≡ x) × Holds s (suc i) xs

  items-Holds : (s : Slice A) (i : ℕ) (xs : List A) → Holds s i xs → items (length xs) i s ≡ xs
  items-Holds s i [] h = refl
  items-Holds s i (x ∷ xs) h = rw (h.0, items-Holds s (suc i) xs h.1) refl

  pub cut-Holds :
      (s : Slice A) (from to : ℕ) (xs : List A)
      → Holds s from xs
      → to ≡ from + length xs
      → to ≤ s.len
      → cut s from to ≡ some xs
  unfolding cut
  cut-Holds s from to xs h e k =
      rw (le→leb from to (omega (arith, e)), le→leb to s.len k)
        (ap (λ (k : ℕ). some (items k from s)) {x = to - from} {y = length xs} (omega (arith, e))
          ∙ ap some (items-Holds s from xs h))

-- The item at an index; 0 past the end, which is never read.
abbrev pub item : List ℕ → ℕ → ℕ
item [] i = 0
item (x ∷ xs) zero = x
item (x ∷ xs) (suc i) = item xs i

abbrev pub from_list : List ℕ → Slice ℕ
from_list xs = record { len = length xs; at = item xs }
