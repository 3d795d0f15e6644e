-- ===== src/Dict/Copy.antt =====
-- A copied map is the map.
use mathlib.Core.List.{append-nil, append_assoc}
use mathlib.Core.Path.{subst}
use rootforge.Prelude.{◌≡◌, ◌≢◌, refl, sym, ◌∙◌, none, [], ◌∷◌, ◌++◌, arith}
use rootforge.Text.{Text, text_eq_iff, text_eq_refl}
use rootforge.Dict.{Dict, lookup, insert, copy_into, copy, Distinct}
use rootforge.Dict.Laws.{insert-Distinct}

module _ {ℓ} {V : Type ℓ} where
  insert_new :
      (k : Text) (v : V) (m : Dict V) → lookup k m ≡ none → insert k v m ≡ m ++ ((k, v) ∷ [])
  unfolding lookup insert
  insert_new k v [] h = refl
  insert_new k v ((j, w) ∷ m) h = ground (arith, insert_new k v m)

  lookup_present : (m n : Dict V) (k : Text) (v : V) → lookup k (m ++ ((k, v) ∷ n)) ≢ none
  unfolding lookup
  lookup_present [] n k v h = ground (arith, text_eq_refl k)
  lookup_present ((j, w) ∷ m) n k v h = ground (arith, lookup_present m n k v)

  Distinct-middle :
      (m n : Dict V) (k : Text) (v : V) → Distinct (m ++ ((k, v) ∷ n)) → lookup k m ≡ none
  unfolding lookup
  Distinct-middle [] n k v h = refl
  Distinct-middle ((j, w) ∷ m) n k v h = ground (
    arith,
    text_eq_iff j k,
    Distinct-middle m n k v h.1,
    λ (e : j ≡ k).
        lookup_present m n k v (subst (λ (t : Text). lookup t (m ++ ((k, v) ∷ n)) ≡ none) e h.0),
  )

  copy_into-append : (t m : Dict V) → Distinct (t ++ m) → copy_into t m ≡ t ++ m
  unfolding copy_into
  copy_into-append t [] d = sym (append-nil t)
  copy_into-append t ((k, v) ∷ m) d = rw (insert_new k v t (Distinct-middle t m k v d)) (
      copy_into-append (t ++ ((k, v) ∷ [])) m (rw (append_assoc t) d)
      ∙ append_assoc t ((k, v) ∷ []) m)

  -- Copying a map key by key gives the map back.
  pub copy_lem : (m : Dict V) → Distinct m → copy m ≡ m
  unfolding copy
  copy_lem m d = copy_into-append [] m d

  copy_into-Distinct : (t m : Dict V) → Distinct t → Distinct (copy_into t m)
  unfolding copy_into
  copy_into-Distinct t [] d = d
  copy_into-Distinct t ((k, v) ∷ m) d =
      copy_into-Distinct (insert k v t) m (insert-Distinct k v t d)

  pub copy-Distinct : (m : Dict V) → Distinct (copy m)
  unfolding copy
  copy-Distinct m = copy_into-Distinct [] m tt
