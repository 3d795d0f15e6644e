-- ===== src/Hprof/Layout.antt =====
-- A class that is read again keeps its field layout.
use rootforge.Prelude.{
  ℕ, ◌≡◌, refl, sym, ap, ◌∙◌, Option, none, some, List, ◌==◌, arith, Bool-cases, inl, inr,
}
use mathlib.Core.Path.{subst}
use rootforge.Hprof.Reader.{Reader, Parsed, id, u4, u2, ◌>>=◌}
use rootforge.Hprof.Classes.{
  FieldDesc, ClassInfo, Meta, class_or_new, fields_unless, update_class, put_class, read_class_dump,
  read_pool, read_statics, read_fields,
}

-- The classes that are flattened stay so, with the same layout, fields and identity.
abbrev pub KeepsLayout : Meta → Meta → Type 0
KeepsLayout m n =
    (k : ℕ) (c : ClassInfo) (layout : List FieldDesc)
    → m.classes k ≡ some c
    → c.layout ≡ some layout
    → (e : ClassInfo) × (n.classes k ≡ some e) × (e.layout ≡ some layout) × (e.fields ≡ c.fields)

put_class-KeepsLayout :
    (m : Meta) (id super size : ℕ) (statics : List ℕ) (fields : List FieldDesc)
    → KeepsLayout m
        (put_class (update_class super size statics fields (class_or_new id (m.classes id))) id m)
unfolding put_class update_class
put_class-KeepsLayout m id super size statics fields k c layout found flat =
    elim (Bool-cases (k == id)) [
      | inl same ↦
          let here : m.classes id ≡ some c = ap m.classes (sym (ground arith)) ∙ found in
          (
            update_class super size statics fields c,
            rw same (rw here refl),
            flat,
            ap (λ (l : Option (List FieldDesc)). fields_unless l c.fields fields) flat,
          )
      | inr other ↦ (c, rw other found, flat, refl)
    ]

abbrev Keeps : Meta → Parsed (ClassInfo × Meta) → Type 0
Keeps m r = (c : ClassInfo) (n : Meta) (e : Reader) → r ≡ some ((c, n), e) → KeepsLayout m n

then_Keeps :
    {A : Type 0} (m : Meta) (o : Option A) (f : A → Parsed (ClassInfo × Meta))
    → ((a : A) → Keeps m (f a))
    → Keeps m (o >>= f)
then_Keeps m none f k c n e h = absurd (cc h)
then_Keeps m (some a) f k c n e h = k a c n e h

done_Keeps :
    (m n : Meta) (c : ClassInfo) (d : Reader) → KeepsLayout m n → Keeps m (some ((c, n), d))
done_Keeps m n c d k c' n' e h = subst (KeepsLayout m) {x = n} {y = n'} (cc h) k

-- The passes over a dump read each class again: a readClassDump that returns keeps the flattened
-- layout and the fields of every class that has one.
pub read_class_dump-KeepsLayout :
    (m : Meta) (d : Reader) (c : ClassInfo) (n : Meta) (e : Reader)
    → read_class_dump m d ≡ some ((c, n), e)
    → KeepsLayout m n
unfolding read_class_dump
read_class_dump-KeepsLayout m d = then_Keeps m (id d) _ λ (id' : ℕ × Reader).
    then_Keeps m (u4 id'.1) _ λ (serial : ℕ × Reader).
      then_Keeps m (id serial.1) _ λ (super : ℕ × Reader).
        then_Keeps m (id super.1) _ λ (loader : ℕ × Reader).
          then_Keeps m (id loader.1) _ λ (signers : ℕ × Reader).
            then_Keeps m (id signers.1) _ λ (domain : ℕ × Reader).
              then_Keeps m (id domain.1) _ λ (r : ℕ × Reader).
                then_Keeps m (id r.1) _ λ (s : ℕ × Reader).
                  then_Keeps m (u4 s.1) _ λ (size : ℕ × Reader).
                    then_Keeps m (u2 size.1) _ λ (pool : ℕ × Reader).
                      then_Keeps m (read_pool pool.0 pool.1) _ λ (d2 : Reader).
                        then_Keeps m (u2 d2) _ λ (ns : ℕ × Reader).
                          then_Keeps m (read_statics ns.0 ns.1) _ λ (statics : List ℕ × Reader).
                            then_Keeps m (u2 statics.1) _ λ (nf : ℕ × Reader).
                              then_Keeps m (read_fields m.strings nf.0 nf.1) _
                                λ (fields : List FieldDesc × Reader).
                                  let c =
                                    update_class super.0 size.0 statics.0 fields.0
                                      (class_or_new id'.0 (m.classes id'.0)) in
                                  done_Keeps m (put_class c id'.0 m) c fields.1 (
                                    put_class-KeepsLayout m id'.0 super.0 size.0 statics.0 fields.0)
