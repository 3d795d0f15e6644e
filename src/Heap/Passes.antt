-- ===== src/Heap/Passes.antt =====
-- The metadata pass of heapdump/hprofx/hprof.go and the object pass of graph.go read a segment alike.
use rootforge.Prelude.{
  ℕ, zero, suc, ◌*◌, ◌≡◌, refl, Bool, true, false, Option, none, some, ltb, ◌==◌, ==_iff,
  Bool-cases, inl, inr,
}
use rootforge.Hprof.Reader.{Reader, id, u1, u4, skip, type_size, ◌>>=◌}
use rootforge.Hprof.Root.{skip_root}
use rootforge.Hprof.Classes.{
  Meta, read_class_dump, skip_object_body, sub_instance, sub_obj_array, sub_prim_array,
}
use rootforge.Hprof.LoadMeta.{
  Loaded, Load, load_sub, load_thread, load_object, load_unless_root, load_segment,
}
use rootforge.Heap.Graph.{Graph}
use rootforge.Heap.Objects.{
  Pass, read_sub, add_sub, add_object, add_class, add_instance, add_obj_array, add_prim_array,
  read_segment, sub_class_dump,
}

-- The strings and classes that a pass has, and where it has come to.
abbrev pub Where : Type 0
Where = Option (Meta × Reader)

abbrev pub of_pass : Pass → Where
of_pass none = none
of_pass (some (g, m, d)) = some (m, d)

abbrev pub of_load : Load → Where
of_load none = none
of_load (some (s, d)) = some (s.meta, d)

-- Passes that begin with the same read agree if they agree after it.
agree :
    {A : Type 0} (o : Option A) (f : A → Pass) (k : A → Load)
    → ((a : A) → of_pass (f a) ≡ of_load (k a))
    → of_pass (o >>= f) ≡ of_load (o >>= k)
agree none f k h = refl
agree (some a) f k h = h a

agree_inside :
    {A B : Type 0} (o : Option A) (f : A → Pass) (h : A → Option B) (k : B → Load)
    → ((a : A) → of_pass (f a) ≡ of_load (h a >>= k))
    → of_pass (o >>= f) ≡ of_load ((o >>= h) >>= k)
agree_inside none f h k e = refl
agree_inside (some a) f h k e = e a

then_agree :
    (p : Pass) (l : Load) (f : Graph × Meta × Reader → Pass) (k : Loaded × Reader → Load)
    → of_pass p ≡ of_load l
    → ((g : Graph) (s : Loaded) (d : Reader) → of_pass (f (g, s.meta, d)) ≡ of_load (k (s, d)))
    → of_pass (p >>= f) ≡ of_load (l >>= k)
then_agree none none f k e h = refl
then_agree none (some l) f k e h = absurd (cc e)
then_agree (some p) none f k e h = absurd (cc e)
then_agree (some (g, m, d)) (some (s, d')) f k e h =
    let same_meta : m ≡ s.meta = cc e in
    let same_reader : d ≡ d' = cc e in rw (same_meta, same_reader) (h g s d')

object_agrees :
    (sub : ℕ) (g : Graph) (s : Loaded) (d : Reader)
    → of_pass (add_object sub g s.meta d) ≡ of_load (load_object sub s d)
unfolding add_object load_object skip_object_body add_class add_instance add_obj_array
    add_prim_array
object_agrees sub g s d = elim (Bool-cases (sub == sub_class_dump)) [
  | inl t ↦ rw t (agree (read_class_dump s.meta d) _ _ (λ r. refl))
  | inr f0 ↦ elim (Bool-cases (sub == sub_instance)) [
    | inl t ↦
        rw (f0, t)
          (agree_inside (id d) _ _ _ (λ o. agree_inside (u4 o.1) _ _ _ (λ st.
            agree_inside (id st.1) _ _ _
              (λ c. agree_inside (u4 c.1) _ _ _ (λ n. agree (skip n.0 n.1) _ _ (λ e. refl))))))
    | inr f1 ↦ elim (Bool-cases (sub == sub_obj_array)) [
      | inl t ↦
          rw (f0, f1, t)
            (agree_inside (id d) _ _ _ (λ o. agree_inside (u4 o.1) _ _ _ (λ st.
              agree_inside (u4 st.1) _ _ _ (λ n.
                agree_inside (id n.1) _ _ _ (λ c. agree (skip (n.0 * 8) c.1) _ _ (λ e. refl))))))
      | inr f2 ↦ elim (Bool-cases (sub == sub_prim_array)) [
        | inl t ↦
            rw (f0, f1, f2, t)
              (agree_inside (id d) _ _ _ (λ o. agree_inside (u4 o.1) _ _ _ (λ st.
                agree_inside (u4 st.1) _ _ _ (λ n. agree_inside (u1 n.1) _ _ _ (λ ty.
                  agree_inside (type_size ty.0) _ _ _
                    (λ w. agree (skip (n.0 * w) ty.1) _ _ (λ e. refl)))))))
        | inr f3 ↦ rw (f0, f1, f2, f3) refl
      ]
    ]
  ]
]

root_agrees :
    (sub : ℕ) (g : Graph) (s : Loaded) (r : (ℕ × Bool) × Reader)
    → of_pass (add_sub sub g s.meta r) ≡ of_load (load_unless_root sub s r)
unfolding add_sub
root_agrees sub g s ((root, true), d) = refl
root_agrees sub g s ((root, false), d) = object_agrees sub g s d

agree_outside :
    {A B : Type 0} (o : Option A) (h : A → Option B) (k : B → Pass) (f : A → Load)
    → ((a : A) → of_pass (h a >>= k) ≡ of_load (f a))
    → of_pass ((o >>= h) >>= k) ≡ of_load (o >>= f)
agree_outside none h k f e = refl
agree_outside (some a) h k f e = e a

thread_agrees :
    (g : Graph) (s : Loaded) (d : Reader)
    → of_pass (skip_root 0x08 d >>= λ root. add_sub 0x08 g s.meta root) ≡ of_load (load_thread s d)
unfolding skip_root add_sub load_thread
thread_agrees g s d = agree_outside (id d) _ _ _ (λ o.
    agree_outside (u4 o.1) _ _ _ (λ serial. agree_outside (u4 serial.1) _ _ _ (λ stack. refl)))

sub_agrees :
    (g : Graph) (s : Loaded) (d : Reader) → of_pass (read_sub g s.meta d) ≡ of_load (load_sub s d)
unfolding read_sub load_sub
sub_agrees g s d = agree (u1 d) _ _ (λ sub. elim (Bool-cases (sub.0 == 0x08)) [
  | inl t ↦ rw (t, (==_iff sub.0 0x08).0 t) (thread_agrees g s sub.1)
  | inr f ↦ rw f (agree (skip_root sub.0 sub.1) _ _ (root_agrees sub.0 g s))
])

-- Over the same bytes of a segment and with the same strings and classes, LoadMeta and the first
-- pass of BuildGraph both fail, or both end at the same offset with the same strings and classes.
pub read_segment-load_segment :
    (fuel end : ℕ) (g : Graph) (s : Loaded) (d : Reader)
    → of_pass (read_segment fuel end g s.meta d) ≡ of_load (load_segment fuel end s d)
unfolding read_segment load_segment
read_segment-load_segment zero end g s d = elim (Bool-cases (ltb d.pos end)) [
  | inl t ↦ rw t refl
  | inr f ↦ rw f refl
]
read_segment-load_segment (suc fuel) end g s d = elim (Bool-cases (ltb d.pos end)) [
  | inl t ↦
      rw (t, read_segment, load_segment)
        (then_agree (read_sub g s.meta d) (load_sub s d) _ _ (sub_agrees g s d)
          (λ g' s' d'. read_segment-load_segment fuel end g' s' d'))
  | inr f ↦ rw (f, read_segment, load_segment) refl
]
