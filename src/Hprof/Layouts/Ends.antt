-- ===== src/Hprof/Layouts/Ends.antt =====
-- buildLayouts of heapdump/hprofx/hprof.go ends, on cyclic superclasses too.
use rootforge.Prelude.{
  ℕ, zero, suc, ◌<◌, ◌≤◌, ◌≡◌, refl, ap, Bool, true, false, Option, none, some, List, [], ◌∷◌, ◌++◌,
  length, ◌==◌, if◌then◌else◌, Bool-cases, Option-cases, inl, inr, arith, item,
}
use rootforge.Hprof.Classes.{FieldDesc, ClassInfo}
use rootforge.Heap.Lookup.Items.{Has}
use rootforge.Hprof.Layouts.Steps.{HasLayout, IsGood, Step, Step-refl, put_layout-Step}
use rootforge.Hprof.Layouts.{
  Layouts, mark, put_layout, layout_fields, is_known, above_or_none, build,
}

-- The classes are among those that are visited.
abbrev pub Listed : List ℕ → (ℕ → Option ClassInfo) → Type 0
Listed order classes = (k : ℕ) (c : ClassInfo) → classes k ≡ some c → Has k order

-- How many of them build has not met.
abbrev pub unmet : List ℕ → (ℕ → Bool) → ℕ
unmet [] seen = 0
unmet (k ∷ order) seen = if seen k then unmet order seen else suc (unmet order seen)

pub unmet_bound : (order : List ℕ) (seen : ℕ → Bool) → unmet order seen ≤ length order
unmet_bound [] seen = omega arith
unmet_bound (k ∷ order) seen = ground (arith, unmet_bound order seen)

unmet-mark :
    (order : List ℕ) (k : ℕ) (s : Layouts) → unmet order ((mark k s).seen) ≤ unmet order s.seen
unmet-mark [] k s = omega arith
unmet-mark (x ∷ order) k s = ground (arith, unmet-mark order k s)

unmet_falls :
    (order : List ℕ) (k i : ℕ) (s : Layouts)
    → i < length order
    → item order i ≡ k
    → s.seen k ≡ false
    → unmet order ((mark k s).seen) < unmet order s.seen
unmet_falls [] k i s low at new = absurd (omega (arith, low))
unmet_falls (x ∷ order) k zero s low at new =
    ground (arith, new, ap s.seen at, unmet-mark order k s)
unmet_falls (x ∷ order) k (suc i) s low at new =
    let rest = unmet_falls order k i s (omega (arith, low)) at new in ground (arith, rest)

-- What a call of build comes to.
pub record IsBuilt (k : ℕ) (s t : Layouts) : Type 0 where
  pub step : Step s t
  pub flat : (c : ClassInfo) → s.classes k ≡ some c → s.seen k ≡ false → HasLayout t.classes k

abbrev pub Ends : ℕ → ℕ → Layouts → Type 0
Ends fuel k s =
    (l : List FieldDesc) × (t : Layouts) × (build fuel k s ≡ some (l, t)) × IsBuilt k s t

above_or_none-Ends :
    (fuel super : ℕ) (s : Layouts)
    → Ends fuel super s
    → (l : List FieldDesc) × (t : Layouts) × (above_or_none super s (build fuel super s)
        ≡ some (l, t))
      × Step s t
above_or_none-Ends fuel super s (l, t, run, b) = elim (Bool-cases (super == 0)) [
  | inl top ↦ ([], s, rw top refl, Step-refl s)
  | inr other ↦ (l, t, rw other run, b.step)
]

not_known :
    (l : Option (List FieldDesc)) (seen : Bool)
    → is_known l seen ≡ false
    → (l ≡ none) × (seen ≡ false)
not_known none seen h = (refl, h)
not_known (some l) seen h = absurd (ground (arith, h))

known_layout :
    (l : Option (List FieldDesc)) (seen : Bool)
    → is_known l seen ≡ true
    → seen ≡ false
    → (fs : List FieldDesc) × (l ≡ some fs)
known_layout none seen h new = absurd (ground (arith, h, new))
known_layout (some l) seen h new = (l, refl)

pub build-Ends :
    (order : List ℕ) (fuel k : ℕ) (s : Layouts)
    → Listed order s.classes
    → IsGood s.classes
    → unmet order s.seen < fuel
    → Ends fuel k s
unfolding build
build-Ends order zero k s listed good low = absurd (omega (arith, low))
build-Ends order (suc fuel) k s listed good low = elim (Option-cases (s.classes k)) [
  | inl absent ↦ (
    [],
    s,
    rw (absent, build) refl,
    record { step = Step-refl s; flat = λ c h new. absurd (cc (absent, h)) },
  )
  | inr (c, found) ↦ elim (Bool-cases (is_known c.layout (s.seen k))) [
    | inl known ↦ (
      layout_fields c.layout,
      s,
      rw (found, known, build) refl,
      record {
        step = Step-refl s;
        flat = λ e h new.
            let (fs, is) = known_layout c.layout (s.seen k) known new in good k c fs found is;
      },
    )
    | inr fresh ↦
        let (empty, new) = not_known c.layout (s.seen k) fresh in
        let (i, fits, at) = listed k c found in
        let (l, t, run, step) = above_or_none-Ends fuel c.super (mark k s) (
          build-Ends order fuel c.super (mark k s) listed good
            (omega (arith, low, unmet_falls order k i s fits at new))) in
        let (last, here) = put_layout-Step k c l s t found empty step in
        (
          c.fields ++ l,
          put_layout k (c.fields ++ l) t,
          rw (found, fresh, run, build) refl,
          record { step = last; flat = λ e h q. here },
        )
  ]
]
