-- ===== src/Hprof/Layouts/Steps.antt =====
-- What the calls of build in heapdump/hprofx/hprof.go keep of the classes.
use rootforge.Prelude.{
  ℕ, ◌≡◌, refl, sym, ap, ◌∙◌, true, false, Option, none, some, List, ◌++◌, ◌==◌, ==_iff, Bool-cases,
  ◌⊎◌, inl, inr, arith,
}
use rootforge.Hprof.Classes.{FieldDesc, ClassInfo}
use rootforge.Hprof.Layouts.{Layouts, mark, put_layout}

-- A class may only gain a layout.
pub record Extends (c d : ClassInfo) : Type 0 where
  pub fields : d.fields ≡ c.fields
  pub super : d.super ≡ c.super
  pub layout : (l : List FieldDesc) → c.layout ≡ some l → d.layout ≡ some l

-- The class has a layout, which begins with its own fields.
pub record HasLayout (classes : ℕ → Option ClassInfo) (k : ℕ) : Type 0 where
  pub class : ClassInfo
  pub above : List FieldDesc
  pub found : classes k ≡ some class
  pub flat : class.layout ≡ some (class.fields ++ above)

-- Layouts begin with the fields of their class.
abbrev pub IsGood : (ℕ → Option ClassInfo) → Type 0
IsGood classes =
    (k : ℕ) (c : ClassInfo) (l : List FieldDesc)
    → classes k ≡ some c
    → c.layout ≡ some l
    → HasLayout classes k

pub record Step (s t : Layouts) : Type 0 where
  pub same :
      (k : ℕ) (c : ClassInfo)
      → s.classes k ≡ some c
      → (d : ClassInfo) × (t.classes k ≡ some d) × Extends c d
  pub absent : (k : ℕ) → s.classes k ≡ none → t.classes k ≡ none
  pub seen : (k : ℕ) → s.seen k ≡ true → t.seen k ≡ true
  pub settled : (k : ℕ) → t.seen k ≡ true → (s.seen k ≡ true) ⊎ HasLayout t.classes k
  pub good : IsGood s.classes → IsGood t.classes

Extends-refl : (c : ClassInfo) → Extends c c
Extends-refl c = record { fields = refl; super = refl; layout = λ l e. e }

pub Step-refl : (s : Layouts) → Step s s
Step-refl s = record {
  same = λ k c e. (c, e, Extends-refl c);
  absent = λ k e. e;
  seen = λ k e. e;
  settled = λ k e. inl e;
  good = λ g. g;
}

pub HasLayout-Step :
    (s t : Layouts) (k : ℕ) → Step s t → HasLayout s.classes k → HasLayout t.classes k
HasLayout-Step s t k step h =
    let (d, found, x) = step.same k h.class h.found in
    record {
      class = d;
      above = h.above;
      found = found;
      flat = x.layout _ h.flat ∙ ap (λ (fs : List FieldDesc). some (fs ++ h.above)) (sym x.fields);
    }

Extends-trans : (c d e : ClassInfo) → Extends c d → Extends d e → Extends c e
Extends-trans c d e x y = record {
  fields = y.fields ∙ x.fields;
  super = y.super ∙ x.super;
  layout = λ l h. y.layout l (x.layout l h);
}

pub Step-trans : (s t u : Layouts) → Step s t → Step t u → Step s u
Step-trans s t u p q = record {
  same = λ k c e.
      let (d, found, x) = p.same k c e in
      let (b, there, y) = q.same k d found in (b, there, Extends-trans c d b x y);
  absent = λ k e. q.absent k (p.absent k e);
  seen = λ k e. q.seen k (p.seen k e);
  settled = λ k e. elim (q.settled k e) [
    | inl m ↦ elim (p.settled k m) [ inl n ↦ inl n | inr h ↦ inr (HasLayout-Step t u k q h) ]
    | inr h ↦ inr h
  ];
  good = λ g. q.good (p.good g);
}

put_layout-HasLayout :
    (k : ℕ) (fields above : List FieldDesc) (s : Layouts) (d : ClassInfo)
    → s.classes k ≡ some d
    → d.fields ≡ fields
    → HasLayout (put_layout k (fields ++ above) s).classes k
put_layout-HasLayout k fields above s d found same = record {
  class = record d { layout = some (fields ++ above) };
  above = above;
  found = ground (arith, found);
  flat = ap (λ (fs : List FieldDesc). some (fs ++ above)) (sym same);
}

put_layout-other :
    (k x : ℕ) (l : List FieldDesc) (s : Layouts)
    → (x == k) ≡ false
    → HasLayout s.classes x
    → HasLayout (put_layout k l s).classes x
put_layout-other k x l s other h = record {
  class = h.class;
  above = h.above;
  found = rw other h.found;
  flat = h.flat;
}

-- The class k, which was met and had no layout, gets one.
pub put_layout-Step :
    (k : ℕ) (c : ClassInfo) (above : List FieldDesc) (s t : Layouts)
    → s.classes k ≡ some c
    → c.layout ≡ none
    → Step (mark k s) t
    → Step s (put_layout k (c.fields ++ above) t)
      × HasLayout (put_layout k (c.fields ++ above) t).classes k
put_layout-Step k c above s t found empty step =
    let (d, there, x) = step.same k c found in
    let last = put_layout k (c.fields ++ above) t in
    let here : HasLayout last.classes k =
      put_layout-HasLayout k c.fields above t d there x.fields in
    (
      record {
        same = λ y e h. elim (Bool-cases (y == k)) [
          | inl at ↦
              let here_y : y ≡ k = (==_iff y k).0 at in
              let class_c : some c ≡ some e = sym found ∙ ap s.classes (sym here_y) ∙ h in
              let is_c : c ≡ e = cc class_c in
              (
                record d { layout = some (c.fields ++ above) },
                rw at (rw (here_y, there) refl),
                rw (sym is_c) (record {
                  fields = x.fields;
                  super = x.super;
                  layout = λ l q. absurd (cc (empty, q));
                }),
              )
          | inr other ↦ let (f, old, z) = step.same y e h in (f, rw other old, z)
        ];
        absent = λ y h. elim (Bool-cases (y == k)) [
          | inl at ↦
              let gone : none ≡ some c = sym h ∙ ap s.classes ((==_iff y k).0 at) ∙ found in
              absurd (cc gone)
          | inr other ↦ rw other (step.absent y h)
        ];
        seen = λ y h. step.seen y (ground (arith, h));
        settled = λ y h. elim (Bool-cases (y == k)) [
          | inl at ↦ inr (rw ((==_iff y k).0 at) here)
          | inr other ↦ elim (step.settled y h) [
            | inl m ↦ inl (rw other at m)
            | inr old ↦ inr (put_layout-other k y (c.fields ++ above) t other old)
          ]
        ];
        good = λ g y e l h q. elim (Bool-cases (y == k)) [
          | inl at ↦ rw ((==_iff y k).0 at) here
          | inr other ↦
              put_layout-other k y (c.fields ++ above) t other (step.good g y e l (rw other at h) q)
        ];
      },
      here,
    )
