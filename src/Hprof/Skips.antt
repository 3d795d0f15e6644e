-- ===== src/Hprof/Skips.antt =====
-- The chunks of reader.skip come to one move.
use rootforge.Prelude.{
  ℕ, zero, suc, ◌+◌, ◌-◌, ◌^◌, ◌≡◌, ◌≤◌, refl, sym, ap, ◌∙◌, Option, none, some, List, [], ◌∷◌, ltb,
  if◌then◌else◌, arith,
}
use rootforge.Hprof.Reader.{Reader, Parsed, split, put_back, moved, must, skip, skip_chunks}

-- What is left of the reader.
abbrev pub left_of : Parsed (List ℕ) → Option Reader
left_of none = none
left_of (some (bytes, d)) = some d

abbrev then_must : ℕ → Parsed (List ℕ) → Option Reader
then_must k none = none
then_must k (some (bytes, d)) = left_of (must k d)

abbrev reader_at : List ℕ → ℕ → Reader
reader_at xs n = record { rest = xs; pos = n }

same_reader : (xs : List ℕ) (m n : ℕ) → m ≡ n → some (reader_at xs m) ≡ some (reader_at xs n)
same_reader xs m n h = ap (λ (k : ℕ). some (reader_at xs k)) h

left_of-put_back :
    (n pos x : ℕ) (o : Option (List ℕ × List ℕ))
    → left_of (moved (suc n) pos (put_back x o)) ≡ left_of (moved n (pos + 1) o)
left_of-put_back n pos x none = refl
left_of-put_back n pos x (some (bytes, r)) = same_reader r _ _ (omega arith)

then_must-put_back :
    (k n pos x : ℕ) (o : Option (List ℕ × List ℕ))
    → then_must k (moved (suc n) pos (put_back x o)) ≡ then_must k (moved n (pos + 1) o)
then_must-put_back k n pos x none = refl
then_must-put_back k n pos x (some (bytes, r)) =
    ap (λ (m : ℕ). left_of (must k (record { rest = r; pos = m }))) (omega arith)

then_must-must :
    (m k n : ℕ) (xs : List ℕ) (pos : ℕ)
    → n ≡ m + k
    → then_must k (must m (reader_at xs pos)) ≡ left_of (must n (reader_at xs pos))
unfolding must split
then_must-must zero k n xs pos h =
    ap (λ (q : ℕ). left_of (must k (reader_at xs q))) {x = pos + 0} {y = pos} (omega arith)
    ∙ ap (λ (j : ℕ). left_of (must j (reader_at xs pos))) {x = k} {y = n} (omega (arith, h))
then_must-must (suc m) k zero xs pos h = absurd (omega (arith, h))
then_must-must (suc m) k (suc n) [] pos h = refl
then_must-must (suc m) k (suc n) (x ∷ xs) pos h =
    then_must-put_back k m pos x (split m xs)
    ∙ then_must-must m k n xs (pos + 1) (omega (arith, h))
    ∙ sym (left_of-put_back n pos x (split n xs))

abbrev after_chunk : (Reader → Option Reader) → Parsed (List ℕ) → Option Reader
after_chunk f none = none
after_chunk f (some (bytes, d)) = f d

after_chunk-then_must :
    (f : Reader → Option Reader) (k : ℕ) (o : Parsed (List ℕ))
    → ((d : Reader) → f d ≡ left_of (must k d))
    → after_chunk f o ≡ then_must k o
after_chunk-then_must f k none h = refl
after_chunk-then_must f k (some (bytes, d)) h = h d

skip_chunks-must : (fuel n : ℕ) (d : Reader) → n ≤ fuel → skip_chunks fuel n d ≡ left_of (must n d)
unfolding skip_chunks
skip_chunks-must fuel zero d h =
    unfold must split in same_reader d.rest d.pos (d.pos + 0) (omega arith)
skip_chunks-must zero (suc n) d h = absurd (omega (arith, h))
skip_chunks-must (suc fuel) (suc n) d h =
    let chunk = if ltb (2 ^ 20) (suc n) then 2 ^ 20 else suc n in
    after_chunk-then_must (skip_chunks fuel (suc n - chunk)) (suc n - chunk) (must chunk d)
      (λ next. skip_chunks-must fuel (suc n - chunk) next (ground arith))
    ∙ then_must-must chunk (suc n - chunk) (suc n) d.rest d.pos (ground arith)

-- reader.skip, which discards in chunks of at most 2 ^ 20 bytes, moves past as many bytes as it is
-- told, or fails if there are fewer.
pub skip-must : (n : ℕ) (d : Reader) → skip n d ≡ left_of (must n d)
unfolding skip
skip-must n d = skip_chunks-must n n d (omega arith)
