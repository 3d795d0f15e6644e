-- ===== src/Dict/Laws.antt =====
-- The laws of writes and deletes, and what they keep.
use rootforge.Prelude.{
  ◌≡◌, refl, sym, false, none, some, [], ◌∷◌, arith, if◌then◌else◌, Bool-cases, inl, inr,
}
use mathlib.Core.Path.{subst}
use rootforge.Text.{Text, text_eq, text_eq_iff, text_eq_refl, text_eq_sound}
use rootforge.Dict.{Dict, lookup, insert, delete, Distinct}

module _ {ℓ} {V : Type ℓ} where
  pub lookup-insert :
      (k j : Text) (v : V) (m : Dict V)
      → lookup j (insert k v m) ≡ (if text_eq k j then some v else lookup j m)
  unfolding lookup insert
  lookup-insert k j v [] = refl
  lookup-insert k j v ((i, w) ∷ m) =
      ground (arith, text_eq_iff k j, text_eq_iff i k, text_eq_iff i j, lookup-insert k j v m)

  pub lookup-insert_self : (k : Text) (v : V) (m : Dict V) → lookup k (insert k v m) ≡ some v
  lookup-insert_self k v m = rw (lookup-insert k k v m) (rw (text_eq_refl k))

  pub lookup-insert_ne :
      (k j : Text) (v : V) (m : Dict V) → text_eq k j ≡ false → lookup j (insert k v m) ≡ lookup j m
  lookup-insert_ne k j v m h = rw (lookup-insert k j v m) (rw h)

  pub lookup-delete :
      (k j : Text) (m : Dict V) → lookup j (delete k m) ≡ (if text_eq k j then none else lookup j m)
  unfolding lookup delete
  lookup-delete k j [] = ground arith
  lookup-delete k j ((i, w) ∷ m) =
      ground (arith, text_eq_iff k j, text_eq_iff i k, text_eq_iff i j, lookup-delete k j m)

  pub insert-Distinct : (k : Text) (v : V) (m : Dict V) → Distinct m → Distinct (insert k v m)
  unfolding lookup insert
  insert-Distinct k v [] d = (refl, tt)
  insert-Distinct k v ((i, w) ∷ m) d =
      ground
        (arith, text_eq_iff i k, text_eq_iff k i, lookup-insert k i v m, insert-Distinct k v m d.1)

  pub delete-Distinct : (k : Text) (m : Dict V) → Distinct m → Distinct (delete k m)
  unfolding delete
  delete-Distinct k [] d = tt
  delete-Distinct k ((i, w) ∷ m) d =
      ground (arith, lookup-delete k i m, text_eq_iff k i, delete-Distinct k m d.1)

module _ {ℓ κ} {V : Type ℓ} (P : Text → V → Type κ) where
  -- A property of every entry.
  abbrev pub Entries : Dict V → Type κ
  Entries [] = Unit
  Entries ((k, v) ∷ m) = P k v × Entries m

  pub insert-Entries : (k : Text) (v : V) (m : Dict V) → P k v → Entries m → Entries (insert k v m)
  unfolding insert
  insert-Entries k v [] p h = (p, tt)
  insert-Entries k v ((j, w) ∷ m) p h = elim (Bool-cases (text_eq j k)) [
    | inl e ↦ rw (e, insert) (subst (λ (i : Text). P i v) (sym (text_eq_sound j k e)) p, h.1)
    | inr n ↦ rw (n, insert) (h.0, insert-Entries k v m p h.1)
  ]

  pub delete-Entries : (k : Text) (m : Dict V) → Entries m → Entries (delete k m)
  unfolding delete
  delete-Entries k [] h = tt
  delete-Entries k ((j, w) ∷ m) h = elim (Bool-cases (text_eq j k)) [
    | inl e ↦ rw (e, delete) (delete-Entries k m h.1)
    | inr n ↦ rw (n, delete) (h.0, delete-Entries k m h.1)
  ]

  pub lookup-Entries : (k : Text) (m : Dict V) (v : V) → Entries m → lookup k m ≡ some v → P k v
  unfolding lookup
  lookup-Entries k [] v h e = ground arith
  lookup-Entries k ((j, w) ∷ m) v h e = elim (Bool-cases (text_eq j k)) [
    | inl y ↦
        let same : w ≡ v = ground arith in
        subst (λ (i : Text). P i v) (text_eq_sound j k y) (subst (λ (u : V). P j u) same h.0)
    | inr n ↦ lookup-Entries k m v h.1 (rw (n, lookup) at e)
  ]
