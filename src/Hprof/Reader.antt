-- ===== src/Hprof/Reader.antt =====
-- The forward-only reader of heapdump/hprofx/hprof.go: the bytes that are left, and the offset. A
-- panic of the source, on a short file or an unknown type, is `none`.
use rootforge.Prelude.{
  ℕ, zero, suc, ◌+◌, ◌*◌, ◌-◌, ◌^◌, ◌||◌, Option, none, some, List, [], ◌∷◌, ltb, ◌==◌,
  if◌then◌else◌,
}

pub record Reader : Type 0 where
  pub rest : List ℕ
  pub pos : ℕ

abbrev pub Parsed : Type 0 → Type 0
Parsed A = Option (A × Reader)

infixl 5 ◌>>=◌
abbrev pub ◌>>=◌ : {A B : Type 0} → Option A → (A → Option B) → Option B
none >>= f = none
some a >>= f = f a

abbrev pub put_back : ℕ → Option (List ℕ × List ℕ) → Option (List ℕ × List ℕ)
put_back b none = none
put_back b (some (xs, r)) = some (b ∷ xs, r)

-- The first n bytes and the others; `none` if there are fewer, which is an error of io.ReadFull.
unfoldable pub split : ℕ → List ℕ → Option (List ℕ × List ℕ)
split zero xs = some ([], xs)
split (suc n) [] = none
split (suc n) (x ∷ xs) = put_back x (split n xs)

abbrev pub moved : ℕ → ℕ → Option (List ℕ × List ℕ) → Parsed (List ℕ)
moved n pos none = none
moved n pos (some (bytes, r)) = some (bytes, record { rest = r; pos = pos + n })

-- reader.must, and reader.take.
unfoldable pub must : ℕ → Reader → Parsed (List ℕ)
unfolding split
must n d = moved n d.pos (split n d.rest)

-- The big-endian number of some bytes.
unfoldable pub big_endian : ℕ → List ℕ → ℕ
big_endian high [] = high
big_endian high (b ∷ bs) = big_endian (high * 256 + b) bs

abbrev pub number : Parsed (List ℕ) → Parsed ℕ
number none = none
number (some (bytes, d)) = some (big_endian 0 bytes, d)

-- An unsigned number of w bytes: u1, u2, u4 and u8, and id, which is u8.
unfoldable pub unsigned : ℕ → Reader → Parsed ℕ
unfolding must big_endian
unsigned w d = number (must w d)

abbrev pub u1 : Reader → Parsed ℕ
u1 d = unsigned 1 d

abbrev pub u2 : Reader → Parsed ℕ
u2 d = unsigned 2 d

abbrev pub u4 : Reader → Parsed ℕ
u4 d = unsigned 4 d

abbrev pub u8 : Reader → Parsed ℕ
u8 d = unsigned 8 d

abbrev pub id : Reader → Parsed ℕ
id d = u8 d

-- The loop of reader.skip, which discards at most 2 ^ 20 bytes at a time.
unfoldable pub skip_chunks : ℕ → ℕ → Reader → Option Reader
unfolding must
skip_chunks fuel zero d = some d
skip_chunks zero (suc n) d = none
skip_chunks (suc fuel) (suc n) d =
    let chunk = if ltb (2 ^ 20) (suc n) then 2 ^ 20 else suc n in
    elim (must chunk d) [ none ↦ none | some (_, next) ↦ skip_chunks fuel (suc n - chunk) next ]

-- reader.skip; a chunk is not empty, so the number of bytes is fuel enough.
unfoldable pub skip : ℕ → Reader → Option Reader
unfolding skip_chunks
skip n d = skip_chunks n n d

-- typeSize[t]; an index out of range panics.
unfoldable pub type_size : ℕ → Option ℕ
type_size t =
    if t == 2 || t == 7 || t == 11
    then some 8
    else if t == 6 || t == 10
    then some 4
    else if t == 5 || t == 9
    then some 2
    else if t == 4 || t == 8
    then some 1
    else if t == 0 || t == 1 || t == 3
    then some 0
    else none

-- reader.readValue.
unfoldable pub read_value : ℕ → Reader → Parsed ℕ
unfolding unsigned
read_value t d =
    if t == 2
    then id d
    else if t == 4 || t == 8
    then u1 d
    else if t == 5 || t == 9
    then u2 d
    else if t == 6 || t == 10
    then u4 d
    else if t == 7 || t == 11
    then u8 d
    else none
