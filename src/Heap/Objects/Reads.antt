-- ===== src/Heap/Objects/Reads.antt =====
-- What a dump's writer puts down is what the reader of heapdump/hprofx/hprof.go takes up.
use rootforge.Prelude.{
  ℕ, zero, suc, ◌+◌, ◌*◌, ◌/◌, ◌%◌, ◌^◌, ◌<◌, ◌≡◌, refl, ap, ◌∙◌, some, List, [], ◌∷◌, ◌++◌, length,
  length-append, arith,
}
use native.Mathlib.Numerals.{unary_clauses}
use rootforge.Hprof.Reader.{unsigned, big_endian, must, skip}
use rootforge.Hprof.Opens.{at_bytes, unsigned_lem, split_lem}
use rootforge.Hprof.Skips.{skip-must}

-- The big-endian bytes of a number, of w bytes.
abbrev pub bytes_of : ℕ → ℕ → List ℕ
bytes_of zero n = []
bytes_of (suc w) n = bytes_of w (n / 256) ++ (n % 256 ∷ [])

pub length-bytes_of : (w n : ℕ) → length (bytes_of w n) ≡ w
length-bytes_of zero n = refl
length-bytes_of (suc w) n =
    omega (arith, length-append (bytes_of w (n / 256)) (n % 256 ∷ []), length-bytes_of w (n / 256))

big_endian-append :
    (high : ℕ) (bs cs : List ℕ) → big_endian high (bs ++ cs) ≡ big_endian (big_endian high bs) cs
unfolding big_endian
big_endian-append high [] cs = refl
big_endian-append high (b ∷ bs) cs = big_endian-append (high * 256 + b) bs cs

big_endian-bytes_of : (w n : ℕ) → n < 256 ^ w → big_endian 0 (bytes_of w n) ≡ n
big_endian-bytes_of zero n h = (unfold big_endian in omega (arith, h))
big_endian-bytes_of (suc w) n h =
    big_endian-append 0 (bytes_of w (n / 256)) (n % 256 ∷ [])
    ∙ ap (λ (k : ℕ). big_endian k (n % 256 ∷ []))
        (big_endian-bytes_of w (n / 256) (let k = simp unary_clauses at h in omega (arith, k)))
    ∙ (unfold big_endian in omega arith)

-- A number that fits its width is read back.
pub unsigned-bytes_of :
    (w n : ℕ) (rest : List ℕ) (pos : ℕ)
    → n < 256 ^ w
    → unsigned w (at_bytes (bytes_of w n ++ rest) pos) ≡ some (n, at_bytes rest (pos + w))
unsigned-bytes_of w n rest pos h =
    unsigned_lem w (bytes_of w n) rest pos (length-bytes_of w n)
    ∙ ap (λ (k : ℕ). some (k, at_bytes rest (pos + w))) (big_endian-bytes_of w n h)

pub skip-append :
    (n : ℕ) (bytes rest : List ℕ) (pos : ℕ)
    → length bytes ≡ n
    → skip n (at_bytes (bytes ++ rest) pos) ≡ some (at_bytes rest (pos + n))
unfolding must
skip-append n bytes rest pos h =
    skip-must n (at_bytes (bytes ++ rest) pos) ∙ rw (split_lem n bytes rest h) refl
