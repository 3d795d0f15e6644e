-- ===== src/Hprof/Opens.antt =====
-- A dump with a well-formed header is opened.
use rootforge.Prelude.{
  ℕ, zero, suc, ◌+◌, ◌≡◌, ◌≢◌, ◌<◌, refl, ap, false, Option, some, List, [], ◌∷◌, ◌++◌, length,
  length-append, arith, ◌==◌,
}
use rootforge.Text.{text, text_eq}
use rootforge.Trigger.Scope.{NoNul}
use rootforge.Hprof.Reader.{Reader, unsigned, must, split, put_back, moved, number, big_endian}
use rootforge.Hprof.Header.{read_format, open_dump}

-- The reader at the head of these bytes.
abbrev pub at_bytes : List ℕ → ℕ → Reader
at_bytes xs pos = record { rest = xs; pos = pos }

pub split_lem :
    (w : ℕ) (bytes rest : List ℕ) → length bytes ≡ w → split w (bytes ++ rest) ≡ some (bytes, rest)
unfolding split
split_lem zero [] rest h = refl
split_lem zero (b ∷ bytes) rest h = absurd (omega (arith, h))
split_lem (suc w) [] rest h = absurd (omega (arith, h))
split_lem (suc w) (b ∷ bytes) rest h = ap (put_back b) (split_lem w bytes rest (omega (arith, h)))

pub unsigned_lem :
    (w : ℕ) (bytes rest : List ℕ) (pos : ℕ)
    → length bytes ≡ w
    → unsigned w (at_bytes (bytes ++ rest) pos) ≡ some (big_endian 0 bytes, at_bytes rest (pos + w))
unfolding unsigned must
unsigned_lem w bytes rest pos h =
    ap (λ (o : Option (List ℕ × List ℕ)). number (moved w pos o)) (split_lem w bytes rest h)

plus_zero : (c : ℕ) → 0 + c ≡ c
plus_zero c = omega arith

given : (c : ℕ) → c ≢ 0 → (c == 0) ≡ false
given c h = ground arith

read_format_lem :
    (fuel : ℕ) (format tail : List ℕ) (pos : ℕ)
    → NoNul format
    → length format < fuel
    → read_format fuel (at_bytes (format ++ (0 ∷ tail)) pos)
      ≡ some (format, at_bytes tail (pos + length format + 1))
unfolding read_format unsigned must split big_endian
read_format_lem zero format tail pos plain h = absurd (omega (arith, h))
read_format_lem (suc fuel) [] tail pos plain h =
    ap (λ (q : ℕ). some ([], at_bytes tail q)) {x = pos + 1} {y = pos + 0 + 1} (omega arith)
read_format_lem (suc fuel) (c ∷ format) tail pos plain h =
    let later : (c == 0) ≡ false = given c plain.0 in
    let rest = read_format_lem fuel format tail (pos + 1) plain.1 (omega (arith, h)) in
    rw (plus_zero c) (
      rw later (
        rw rest (
          ap (λ (q : ℕ). some (c ∷ format, at_bytes tail q)) {x = pos + 1 + length format + 1}
            {y = pos + suc (length format) + 1} (omega arith))))

-- openDump of a file whose format string starts with JAVA PROFILE and has no NUL byte, with
-- identifiers of 8 bytes: it returns the timestamp, and the records that follow are left.
pub open_dump-header :
    (version stamp rest : List ℕ) (pos : ℕ)
    → NoNul (text "JAVA PROFILE" ++ version)
    → length stamp ≡ 8
    → open_dump
        (at_bytes ((text "JAVA PROFILE" ++ version) ++ (0 ∷ 0 ∷ 0 ∷ 0 ∷ 8 ∷ (stamp ++ rest))) pos)
      ≡ some
          (big_endian 0 stamp, at_bytes rest (pos + length (text "JAVA PROFILE" ++ version) + 13))
unfolding open_dump text_eq
open_dump-header version stamp rest pos plain size =
    let format = text "JAVA PROFILE" ++ version in
    let tail = 0 ∷ 0 ∷ 0 ∷ 8 ∷ (stamp ++ rest) in
    rw
      (read_format_lem (suc (length (format ++ (0 ∷ tail)))) format tail pos plain
        (omega (arith, length-append format (0 ∷ tail))))
      (rw (unsigned_lem 8 stamp rest (pos + length format + 1 + 4) size) (
        ap (λ (q : ℕ). some (big_endian 0 stamp, at_bytes rest q))
          {x = pos + length format + 1 + 4 + 8} {y = pos + length format + 13} (omega arith)))
