-- ===== src/Text/Trim.antt =====
-- strings.TrimSpace is idempotent.
use mathlib.Core.List.{reverse-reverse, reverse-append}
use rootforge.Prelude.{ℕ, zero, suc, ◌≡◌, refl, sym, ap, ◌∙◌, Bool, [], ◌∷◌, ◌++◌, reverse, arith}
use rootforge.Text.{
  Text, space_at, strip, is_space_pair, is_space_triple, pair_back, triple_back, trim_left,
  trim_right, trim_space,
}

module _ (pair : ℕ → ℕ → Bool) (triple : ℕ → ℕ → ℕ → Bool) where
  -- What `strip` leaves has no space at its head.
  space_at-strip : (k : ℕ) (s : Text) → space_at pair triple (strip pair triple k s) ≡ 0
  unfolding strip
  space_at-strip zero [] = unfold space_at in refl
  space_at-strip (suc k) [] = unfold space_at in refl
  space_at-strip (suc k) (x ∷ xs) = space_at-strip k xs
  space_at-strip zero (x ∷ xs) = go (space_at pair triple (x ∷ xs)) refl (λ k. space_at-strip k xs)
    where
      go :
          (n : ℕ)
          → space_at pair triple (x ∷ xs) ≡ n
          → ((k : ℕ) → space_at pair triple (strip pair triple k xs) ≡ 0)
          → space_at pair triple (elim n [ zero ↦ x ∷ xs | suc k ↦ strip pair triple k xs ]) ≡ 0
      go zero e ih = e
      go (suc k) e ih = ih k

  strip_fixed : (s : Text) → space_at pair triple s ≡ 0 → strip pair triple 0 s ≡ s
  unfolding strip
  strip_fixed [] h = refl
  strip_fixed (x ∷ xs) h = rw (h, strip)

  space_at-prefix : (p q : Text) → space_at pair triple (p ++ q) ≡ 0 → space_at pair triple p ≡ 0
  unfolding space_at
  space_at-prefix [] q h = refl
  space_at-prefix (a ∷ []) [] h = h
  space_at-prefix (a ∷ []) (c ∷ q) h = ground arith
  space_at-prefix (a ∷ b ∷ []) [] h = h
  space_at-prefix (a ∷ b ∷ []) (c ∷ q) h = ground arith
  space_at-prefix (a ∷ b ∷ c ∷ r) q h = h

  -- `strip` leaves a suffix.
  strip_suffix : (k : ℕ) (s : Text) → (p : Text) × (s ≡ p ++ strip pair triple k s)
  unfolding strip
  strip_suffix zero [] = ([], refl)
  strip_suffix (suc k) [] = ([], refl)
  strip_suffix (suc k) (x ∷ xs) = let (p, e) = strip_suffix k xs in (x ∷ p, ap (◌∷◌ x) e)
  strip_suffix zero (x ∷ xs) = go (space_at pair triple (x ∷ xs)) (λ k. strip_suffix k xs)
    where
      go :
          (n : ℕ)
          → ((k : ℕ) → (p : Text) × (xs ≡ p ++ strip pair triple k xs))
          → (p : Text) × (x ∷ xs ≡ p ++ (elim n [ zero ↦ x ∷ xs | suc k ↦ strip pair triple k xs ]))
      go zero ih = ([], refl)
      go (suc k) ih = let (p, e) = ih k in (x ∷ p, ap (◌∷◌ x) e)

abbrev head_space : Text → ℕ
head_space = space_at is_space_pair is_space_triple

head_space-trim_right : (s : Text) → head_space s ≡ 0 → head_space (trim_right s) ≡ 0
unfolding trim_right
head_space-trim_right s h =
    let b = strip pair_back triple_back 0 (reverse s) in
    let (p, e) = strip_suffix pair_back triple_back 0 (reverse s) in
    let whole : s ≡ reverse b ++ reverse p =
      sym (reverse-reverse s) ∙ ap reverse e ∙ reverse-append p b in
    space_at-prefix is_space_pair is_space_triple (reverse b) (reverse p)
      (ap head_space (sym whole) ∙ h)

trim_right-trim_right : (s : Text) → trim_right (trim_right s) ≡ trim_right s
unfolding trim_right
trim_right-trim_right s = rw reverse-reverse (
    ap (reverse {A = ℕ}) (
      strip_fixed pair_back triple_back (strip pair_back triple_back 0 (reverse s))
        (space_at-strip pair_back triple_back 0 (reverse s))))

-- A trimmed string is left alone.
pub trim_space-trim_space : (s : Text) → trim_space (trim_space s) ≡ trim_space s
unfolding trim_space
trim_space-trim_space s =
    ap trim_right (
      strip_fixed is_space_pair is_space_triple (trim_right (trim_left s))
        (head_space-trim_right (trim_left s) (space_at-strip is_space_pair is_space_triple 0 s)))
    ∙ trim_right-trim_right (trim_left s)
