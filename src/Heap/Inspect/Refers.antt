-- ===== src/Heap/Inspect/Refers.antt =====
-- The references that graph.go takes from an instance are the object fields that inspect.go shows.
use rootforge.Prelude.{
  ℕ, ◌+◌, ◌≡◌, refl, sym, ◌∙◌, Option, none, some, List, [], ◌∷◌, length, ltb, ◌==◌, if◌then◌else◌,
  Bool-cases, inl, inr,
}
use rootforge.Hprof.Reader.{type_size, ◌>>=◌}
use rootforge.Hprof.Classes.{FieldDesc}
use rootforge.Heap.Graph.{Graph}
use rootforge.Heap.Edges.{Edges, emit, emit_all, emit_field, emit_fields, uint64_at}
use rootforge.Heap.Inspect.{FieldValue, fields_from, raw_value}

-- The raw values of the fields that hold objects.
abbrev pub references : List FieldValue → List ℕ
references [] = []
references (f ∷ fs) = if f.type == 2 then f.raw ∷ references fs else references fs

bind_cong :
    {A B : Type 0} (o : Option A) (f h : A → Option B)
    → ((a : A) → f a ≡ h a)
    → (o >>= f) ≡ (o >>= h)
bind_cong none f h e = refl
bind_cong (some a) f h e = e a

bind_both :
    {A B C : Type 0} (o : Option A) (f : A → Option C) (h : A → Option B) (k : B → Option C)
    → ((a : A) → f a ≡ (h a >>= k))
    → (o >>= f) ≡ ((o >>= h) >>= k)
bind_both none f h k e = refl
bind_both (some a) f h k e = e a

swap :
    {A B C : Type 0} (o : Option A) (p : Option B) (h : A → B → Option C)
    → (o >>= λ a. (p >>= λ b. h a b)) ≡ (p >>= λ b. (o >>= λ a. h a b))
swap none none h = refl
swap none (some b) h = refl
swap (some a) none h = refl
swap (some a) (some b) h = refl

add_field :
    (g : Graph) (from : Option ℕ) (f : FieldValue) (o : Option (List FieldValue)) (e : Edges)
    → ((o >>= λ rest. some (f ∷ rest)) >>= λ fs. emit_all g from (references fs) e)
      ≡ (o >>= λ rest. emit_all g from (references (f ∷ rest)) e)
add_field g from f none e = refl
add_field g from f (some fs) e = refl

one_field :
    (g : Graph) (from : Option ℕ) (body : List ℕ) (off : ℕ) (f : FieldDesc)
    (o : Option (List FieldValue)) (e : Edges)
    → (emit_field g from body off f.typ e >>= λ next.
        (o >>= λ fs. emit_all g from (references fs) next))
      ≡ (o >>= λ rest.
          emit_all g from
            (references
              (record { name = f.name; type = f.typ; raw = raw_value f.typ body off } ∷ rest))
            e)
unfolding emit_all
one_field g from body off f o e = elim (Bool-cases (f.typ == 2)) [
  | inl y ↦ rw y (swap (emit g from (uint64_at body off) e) o _)
  | inr n ↦ rw n refl
]

-- The second pass of BuildGraph emits from the body of an instance exactly the references that
-- Fields reads from the same body and layout as values of object type, in the same order; where
-- one of the two panics on an unknown field type, so does the other.
pub emit_fields-fields_from :
    (g : Graph) (from : Option ℕ) (body : List ℕ) (off : ℕ) (layout : List FieldDesc) (e : Edges)
    → emit_fields g from body off layout e
      ≡ (fields_from body off layout >>= λ fs. emit_all g from (references fs) e)
unfolding emit_fields fields_from emit_all
emit_fields-fields_from g from body off [] e = refl
emit_fields-fields_from g from body off (f ∷ layout) e = bind_both (type_size f.typ) _ _ _ (λ w.
    elim (Bool-cases (ltb (length body) (off + w))) [
      | inl past ↦ rw past refl
      | inr inside ↦ rw inside (
          bind_cong (emit_field g from body off f.typ e) _ _
            (λ next. emit_fields-fields_from g from body (off + w) layout next)
          ∙ one_field g from body off f (fields_from body (off + w) layout) e
          ∙ sym (add_field g from _ (fields_from body (off + w) layout) e))
    ])
