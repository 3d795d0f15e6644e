-- ===== src/Hprof/Layouts/Flat.antt =====
-- What buildLayouts of heapdump/hprofx/hprof.go gives every class.
use rootforge.Prelude.{
  ℕ, suc, ◌<◌, ◌≡◌, refl, true, false, Option, none, some, List, [], ◌∷◌, length, Bool-cases, inl,
  inr, arith, All,
}
use rootforge.Hprof.Classes.{ClassInfo, Meta}
use rootforge.Heap.Lookup.Items.{Has, item-All}
use rootforge.Hprof.Layouts.{Layouts, build_all, build_layouts}
use rootforge.Hprof.Layouts.Steps.{
  Extends, HasLayout, IsGood, Step, Step-refl, Step-trans, HasLayout-Step,
}
use rootforge.Hprof.Layouts.Ends.{Listed, unmet_bound, build-Ends}

-- The class, if there is one, has a layout now.
abbrev Flat : Layouts → Layouts → ℕ → Type 0
Flat s t k = (c : ClassInfo) → s.classes k ≡ some c → HasLayout t.classes k

Listed-Step :
    (order : List ℕ) (s t : Layouts) → Step s t → Listed order s.classes → Listed order t.classes
Listed-Step order s t step listed k d found = go (s.classes k) refl
  where
    go : (o : Option ClassInfo) → s.classes k ≡ o → Has k order
    go none e = absurd (cc (step.absent k e, found))
    go (some c) e = listed k c e

Flat-before : (ks : List ℕ) (s t u : Layouts) → Step s t → All (Flat t u) ks → All (Flat s u) ks
Flat-before [] s t u step h = tt
Flat-before (k ∷ ks) s t u step h =
    (λ c e. let (d, found, x) = step.same k c e in h.0 d found, Flat-before ks s t u step h.1)

-- What build has met has a layout, between its calls.
abbrev Settled : Layouts → Type 0
Settled s = (k : ℕ) → s.seen k ≡ true → HasLayout s.classes k

Settled-Step : (s t : Layouts) → Step s t → Settled s → Settled t
Settled-Step s t step h k e = elim (step.settled k e) [
  | inl before ↦ HasLayout-Step s t k step (h k before)
  | inr now ↦ now
]

build_all_ends :
    (order ks : List ℕ) (fuel : ℕ) (s : Layouts)
    → Listed order s.classes
    → IsGood s.classes
    → Settled s
    → length order < fuel
    → (t : Layouts) × (build_all fuel ks s ≡ some t) × Step s t × All (Flat s t) ks
unfolding build_all
build_all_ends order [] fuel s listed good settled enough = (s, refl, Step-refl s, tt)
build_all_ends order (k ∷ ks) fuel s listed good settled enough =
    let (l, r, run, b) =
      build-Ends order fuel k s listed good (omega (arith, unmet_bound order s.seen, enough)) in
    let (t, runs, step, flat) =
      build_all_ends order ks fuel r (Listed-Step order s r b.step listed) (b.step.good good)
        (Settled-Step s r b.step settled) enough in
    let first : Flat s r k = λ c e. elim (Bool-cases (s.seen k)) [
      | inl met ↦ HasLayout-Step s r k b.step (settled k met)
      | inr new ↦ b.flat c e new
    ] in
    (
      t,
      rw run runs,
      Step-trans s r t b.step step,
      (λ c e. HasLayout-Step r t k step (first c e), Flat-before ks s r t b.step flat),
    )

-- buildLayouts, over classes that its loop visits and whose layouts, where there are any, begin
-- with their own fields, ends, also where superclasses form a cycle: every class has a layout that
-- begins with its own fields, and keeps its fields, its superclass and a layout that it had.
pub build_layouts-HasLayout :
    (order : List ℕ) (m : Meta)
    → Listed order m.classes
    → IsGood m.classes
    → (n : Meta) × (build_layouts order m ≡ some n)
      × ((k : ℕ) (c : ClassInfo)
          → m.classes k ≡ some c
          → HasLayout n.classes k × (d : ClassInfo) × (n.classes k ≡ some d) × Extends c d)
unfolding build_layouts
build_layouts-HasLayout order m listed good =
    let start : Layouts = record { classes = m.classes; seen = λ x. false } in
    let (t, run, step, flat) =
      build_all_ends order order (suc (length order)) start listed good
        (λ k e. absurd (ground (arith, e))) (omega arith) in
    (
      record m { classes = t.classes },
      rw run refl,
      λ k c e.
          let (i, fits, at) = listed k c e in
          let (d, found, x) = step.same k c e in
          ((rw at at (item-All (Flat start t) order i flat fits)) c e, d, found, x),
    )
