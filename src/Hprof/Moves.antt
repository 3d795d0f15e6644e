-- ===== src/Hprof/Moves.antt =====
-- What a read consumes: as many bytes as the width, which the offset counts.
use rootforge.Prelude.{
  ℕ, zero, suc, ◌+◌, ◌≡◌, sym, ap, ◌∙◌, ◌||◌, Option, none, some, List, [], ◌∷◌, ◌++◌, length, ◌==◌,
  arith, if_rule,
}
use rootforge.Hprof.Reader.{
  Reader, Parsed, split, put_back, moved, must, number, big_endian, unsigned, type_size, read_value,
}

-- The reader `d` gave these bytes and became `e`.
pub record Moves (d e : Reader) (bytes : List ℕ) : Type 0 where
  pub consumed : d.rest ≡ bytes ++ e.rest
  pub offset : e.pos ≡ d.pos + length bytes

put_back-some :
    (x : ℕ) (o : Option (List ℕ × List ℕ)) (bytes r : List ℕ)
    → put_back x o ≡ some (bytes, r)
    → (bs : List ℕ) × (o ≡ some (bs, r)) × (bytes ≡ x ∷ bs)
put_back-some x none bytes r h = absurd (cc h)
put_back-some x (some (bs, q)) bytes r h = (bs, cc h, cc h)

split-some :
    (n : ℕ) (xs bytes r : List ℕ)
    → split n xs ≡ some (bytes, r)
    → (xs ≡ bytes ++ r) × (length bytes ≡ n)
unfolding split
split-some zero xs bytes r h =
    let nothing : [] ≡ bytes = cc h in
    let same : xs ≡ r = cc h in
    (same ∙ ap (λ (b : List ℕ). b ++ r) nothing, ap (λ (b : List ℕ). length b) (sym nothing))
split-some (suc n) [] bytes r h = absurd (cc h)
split-some (suc n) (x ∷ xs) bytes r h =
    let (bs, found, head) = put_back-some x (split n xs) bytes r h in
    let (parts, size) = split-some n xs bs r found in
    (
      ap (λ (t : List ℕ). x ∷ t) parts ∙ ap (λ (b : List ℕ). b ++ r) (sym head),
      ap (λ (b : List ℕ). length b) head ∙ ap suc size,
    )

moved-some :
    (n pos : ℕ) (o : Option (List ℕ × List ℕ)) (bytes : List ℕ) (e : Reader)
    → moved n pos o ≡ some (bytes, e)
    → (o ≡ some (bytes, e.rest)) × (e.pos ≡ pos + n)
moved-some n pos none bytes e h = absurd (cc h)
moved-some n pos (some (bs, q)) bytes e h = (cc h, cc h)

must-Moves :
    (n : ℕ) (d e : Reader) (bytes : List ℕ)
    → must n d ≡ some (bytes, e)
    → Moves d e bytes × (length bytes ≡ n)
unfolding must
must-Moves n d e bytes h =
    let (found, offset) = moved-some n d.pos (split n d.rest) bytes e h in
    let (parts, size) = split-some n d.rest bytes e.rest found in
    (record { consumed = parts; offset = omega (arith, offset, size) }, size)

number-some :
    (o : Parsed (List ℕ)) (v : ℕ) (e : Reader)
    → number o ≡ some (v, e)
    → (bytes : List ℕ) × (o ≡ some (bytes, e)) × (v ≡ big_endian 0 bytes)
number-some none v e h = absurd (cc h)
number-some (some (bs, q)) v e h = (bs, cc h, cc h)

pub unsigned-Moves :
    (w : ℕ) (d e : Reader) (v : ℕ)
    → unsigned w d ≡ some (v, e)
    → (bytes : List ℕ) × Moves d e bytes × (length bytes ≡ w) × (v ≡ big_endian 0 bytes)
unfolding unsigned
unsigned-Moves w d e v h =
    let (bytes, found, value) = number-some (must w d) v e h in
    let (moves, size) = must-Moves w d e bytes found in (bytes, moves, size, value)

-- What a successful read of a value of type `t` is.
abbrev pub ReadsType : ℕ → Reader → Parsed ℕ → Type 0
ReadsType t d r =
    (v : ℕ) (e : Reader)
    → r ≡ some (v, e)
    → (bytes : List ℕ) × Moves d e bytes
      × (type_size t ≡ some (length bytes))
      × (v ≡ big_endian 0 bytes)

unsigned-ReadsType : (t w : ℕ) (d : Reader) → type_size t ≡ some w → ReadsType t d (unsigned w d)
unsigned-ReadsType t w d size v e h =
    let (bytes, moves, width, value) = unsigned-Moves w d e v h in
    (bytes, moves, size ∙ ap some (sym width), value)

-- A value that readValue returns is the big-endian number of the next bytes, as many as typeSize
-- gives for the type, and the reader and its offset move past just these.
pub read_value-ReadsType : (t : ℕ) (d : Reader) → ReadsType t d (read_value t d)
unfolding read_value
read_value-ReadsType t d =
    let good = ReadsType t d in
    if_rule good (t == 2) _ _ (λ h. unsigned-ReadsType t 8 d (unfold type_size in ground arith))
      λ _.
        if_rule good (t == 4 || t == 8) _ _
          (λ h. unsigned-ReadsType t 1 d (unfold type_size in ground arith))
          λ _.
            if_rule good (t == 5 || t == 9) _ _
              (λ h. unsigned-ReadsType t 2 d (unfold type_size in ground arith))
              λ _.
                if_rule good (t == 6 || t == 10) _ _
                  (λ h. unsigned-ReadsType t 4 d (unfold type_size in ground arith))
                  λ _.
                    if_rule good (t == 7 || t == 11) _ _
                      (λ h. unsigned-ReadsType t 8 d (unfold type_size in ground arith))
                      λ _ v e h. absurd (cc h)
