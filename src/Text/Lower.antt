-- ===== src/Text/Lower.antt =====
-- strings.ToLower keeps a trimmed string trimmed, and is idempotent, if Unicode's case mapping is.
use mathlib.Core.List.{reverse-cons, map-append}
use rootforge.Prelude.{
  ℕ, zero, suc, ◌≡◌, refl, sym, ap, ◌∙◌, Bool, false, [], ◌∷◌, map, reverse, arith, inl, inr,
  Bool-cases, ltb,
}
use rootforge.Text.{
  Text, space_at, strip, is_space_byte, is_space_pair, is_space_triple, pair_back, triple_back,
  trim_left, trim_right, trim_space, is_ascii, lower_byte, to_lower,
}

-- What the program relies on in Unicode's case mapping, for a string with a byte above 127: what is
-- lower case stays, and a letter does not become a space.
pub record LowersWide (lower_wide : Text → Text) : Type 0 where
  pub lower_twice :
      (s : Text) → is_ascii s ≡ false → to_lower lower_wide (lower_wide s) ≡ lower_wide s
  pub keeps_trimmed :
      (s : Text) → is_ascii s ≡ false → trim_space s ≡ s → trim_space (lower_wide s) ≡ lower_wide s

lower_byte-lower_byte : (c : ℕ) → lower_byte (lower_byte c) ≡ lower_byte c
unfolding lower_byte
lower_byte-lower_byte c = ground arith

lower_byte_ascii : (c : ℕ) → ltb (lower_byte c) 128 ≡ ltb c 128
unfolding lower_byte
lower_byte_ascii c = ground arith

is_space_byte-lower : (c : ℕ) → is_space_byte (lower_byte c) ≡ is_space_byte c
unfolding lower_byte is_space_byte
is_space_byte-lower c = ground arith

is_space_pair-lower : (a b : ℕ) → is_space_pair (lower_byte a) (lower_byte b) ≡ is_space_pair a b
unfolding lower_byte is_space_pair
is_space_pair-lower a b = ground arith

is_space_triple-lower :
    (a b c : ℕ)
    → is_space_triple (lower_byte a) (lower_byte b) (lower_byte c) ≡ is_space_triple a b c
unfolding lower_byte is_space_triple
is_space_triple-lower a b c = ground arith

module _ (pair : ℕ → ℕ → Bool) (triple : ℕ → ℕ → ℕ → Bool)
    (same_pair : (a b : ℕ) → pair (lower_byte a) (lower_byte b) ≡ pair a b)
    (same_triple : (a b c : ℕ)
      → triple (lower_byte a) (lower_byte b) (lower_byte c) ≡ triple a b c) where
  space_at-lower : (s : Text) → space_at pair triple (map lower_byte s) ≡ space_at pair triple s
  unfolding space_at
  space_at-lower [] = refl
  space_at-lower (a ∷ []) = rw (is_space_byte-lower a)
  space_at-lower (a ∷ b ∷ []) = rw (is_space_byte-lower a, same_pair a b)
  space_at-lower (a ∷ b ∷ c ∷ r) = rw (is_space_byte-lower a, same_pair a b, same_triple a b c)

  strip-lower :
      (k : ℕ) (s : Text)
      → strip pair triple k (map lower_byte s) ≡ map lower_byte (strip pair triple k s)
  unfolding strip
  strip-lower zero [] = refl
  strip-lower (suc k) [] = refl
  strip-lower (suc k) (x ∷ xs) = strip-lower k xs
  strip-lower zero (x ∷ xs) =
      rw (space_at-lower (x ∷ xs), strip)
        (go (space_at pair triple (x ∷ xs)) (λ k. strip-lower k xs))
    where
      go :
          (n : ℕ)
          → ((k : ℕ)
              → strip pair triple k (map lower_byte xs) ≡ map lower_byte (strip pair triple k xs))
          → ◌≡◌ {A = Text}
              (elim n [
                | zero ↦ map lower_byte (x ∷ xs)
                | suc k ↦ strip pair triple k (map lower_byte xs)
              ])
              (map lower_byte (elim n [ zero ↦ x ∷ xs | suc k ↦ strip pair triple k xs ]))
      go zero ih = refl
      go (suc k) ih = ih k

trim_left-lower : (s : Text) → trim_left (map lower_byte s) ≡ map lower_byte (trim_left s)
unfolding trim_left
trim_left-lower s =
    strip-lower is_space_pair is_space_triple is_space_pair-lower is_space_triple-lower 0 s

reverse-map : (s : Text) → reverse (map lower_byte s) ≡ map lower_byte (reverse s)
reverse-map [] = refl
reverse-map (x ∷ xs) =
    rw (reverse-cons (lower_byte x) (map lower_byte xs), reverse-cons x xs, reverse-map xs)
      (sym (map-append lower_byte (reverse xs) (x ∷ [])))

trim_right-lower : (s : Text) → trim_right (map lower_byte s) ≡ map lower_byte (trim_right s)
unfolding trim_right
trim_right-lower s = rw (reverse-map s) (
    ap (reverse {A = ℕ}) (
      strip-lower pair_back triple_back (λ b a. is_space_pair-lower a b)
        (λ c b a. is_space_triple-lower a b c) 0 (reverse s))
    ∙ reverse-map (strip pair_back triple_back 0 (reverse s)))

trim_space-lower : (s : Text) → trim_space (map lower_byte s) ≡ map lower_byte (trim_space s)
unfolding trim_space
trim_space-lower s = rw (trim_left-lower s) (trim_right-lower (trim_left s))

is_ascii-lower : (s : Text) → is_ascii (map lower_byte s) ≡ is_ascii s
unfolding is_ascii
is_ascii-lower [] = refl
is_ascii-lower (x ∷ xs) = rw (lower_byte_ascii x, is_ascii-lower xs)

lower_twice_ascii : (s : Text) → map lower_byte (map lower_byte s) ≡ map lower_byte s
lower_twice_ascii [] = refl
lower_twice_ascii (x ∷ xs) = rw (lower_byte-lower_byte x, lower_twice_ascii xs)

module _ (lower_wide : Text → Text) (laws : LowersWide lower_wide) where
  pub to_lower-to_lower :
      (s : Text) → to_lower lower_wide (to_lower lower_wide s) ≡ to_lower lower_wide s
  unfolding to_lower
  to_lower-to_lower s = elim (Bool-cases (is_ascii s)) [
    | inl a ↦ rw (a, to_lower) (rw (is_ascii-lower s, a, to_lower) (lower_twice_ascii s))
    | inr w ↦ rw (w, to_lower) (laws.lower_twice s w)
  ]

  pub trim_space-to_lower :
      (s : Text) → trim_space s ≡ s → trim_space (to_lower lower_wide s) ≡ to_lower lower_wide s
  unfolding to_lower
  trim_space-to_lower s t = elim (Bool-cases (is_ascii s)) [
    | inl a ↦ rw a (trim_space-lower s ∙ ap (map lower_byte) t)
    | inr w ↦ rw w (laws.keeps_trimmed s w t)
  ]
