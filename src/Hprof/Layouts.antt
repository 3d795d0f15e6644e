-- ===== src/Hprof/Layouts.antt =====
-- buildLayouts of heapdump/hprofx/hprof.go: the fields of each class with those of its superclasses.
pub mod Steps
pub mod Ends
pub mod Flat
use rootforge.Prelude.{
  ℕ, zero, suc, Bool, true, false, ◌||◌, Option, none, some, List, [], ◌∷◌, ◌++◌, length, ◌==◌,
  if◌then◌else◌,
}
use rootforge.Hprof.Reader.{◌>>=◌}
use rootforge.Hprof.Classes.{FieldDesc, ClassInfo, Meta}

-- The classes, and which ones build has met.
pub record Layouts : Type 0 where
  pub classes : ℕ → Option ClassInfo
  pub seen : ℕ → Bool

abbrev pub mark : ℕ → Layouts → Layouts
mark k s = record s { seen = λ x. if x == k then true else s.seen x }

abbrev pub with_layout : List FieldDesc → Option ClassInfo → Option ClassInfo
with_layout l none = none
with_layout l (some c) = some (record c { layout = some l })

abbrev pub put_layout : ℕ → List FieldDesc → Layouts → Layouts
put_layout k l s = record s {
  classes = λ x. if x == k then with_layout l (s.classes x) else s.classes x;
}

-- A nil layout has no fields.
abbrev pub layout_fields : Option (List FieldDesc) → List FieldDesc
layout_fields none = []
layout_fields (some l) = l

abbrev pub is_known : Option (List FieldDesc) → Bool → Bool
is_known none seen = seen
is_known (some l) seen = true

abbrev pub Built : Type 0
Built = Option (List FieldDesc × Layouts)

-- The layout of a class, with that of its superclass.
abbrev pub finish_layout : ℕ → List FieldDesc → Built → Built
finish_layout k fields none = none
finish_layout k fields (some (above, s)) = some (fields ++ above, put_layout k (fields ++ above) s)

abbrev pub above_or_none : ℕ → Layouts → Built → Built
above_or_none super s above = if super == 0 then some ([], s) else above

-- build, with a bound on the depth of its calls.
unfoldable pub build : ℕ → ℕ → Layouts → Built
build zero k s = none
build (suc fuel) k s = elim (s.classes k) [
  | none ↦ some ([], s)
  | some c ↦ elim (is_known c.layout (s.seen k)) [
    | true ↦ some (layout_fields c.layout, s)
    | false ↦
        finish_layout k c.fields (above_or_none c.super (mark k s) (build fuel c.super (mark k s)))
  ]
]

-- The loop over the classes, in the order in which `range` visits them.
unfoldable pub build_all : ℕ → List ℕ → Layouts → Option Layouts
build_all fuel [] s = some s
build_all fuel (k ∷ order) s = build fuel k s >>= λ r. build_all fuel order r.1

-- Each call within a call meets another class, so their number is depth enough.
unfoldable pub build_layouts : List ℕ → Meta → Option Meta
build_layouts order m =
    build_all (suc (length order)) order (record { classes = m.classes; seen = λ x. false })
    >>= λ s. some (record m { classes = s.classes })
