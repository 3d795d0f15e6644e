-- ===== src/Text.antt =====
-- Go strings as byte sequences, with what the program uses of packages strings and encoding/hex:
-- ==, <, TrimSpace, ToLower, Join and EncodeToString.
pub mod Trim
pub mod Lower
pub mod Utf8
use Prim.Native.String.{String}
use Prim.Native.Char.{code}
use rootforge.Prelude.{
  ℕ, zero, suc, ◌+◌, ◌-◌, ◌/◌, ◌%◌, ◌≡◌, refl, ◌↔◌, Bool, true, false, ◌&&◌, ◌||◌, List, [], ◌∷◌,
  ◌++◌, map, reverse, arith, ltb, leb, ◌==◌, if◌then◌else◌, length, take,
}

-- The bytes of a Go string.
abbrev pub Text : Type 0
Text = List ℕ

-- The bytes of an ASCII literal.
abbrev pub text : String → Text
text String.[] = []
text (String.◌∷◌ c s) = code c ∷ text s

unfoldable pub text_eq : Text → Text → Bool
text_eq [] [] = true
text_eq [] (y ∷ ys) = false
text_eq (x ∷ xs) [] = false
text_eq (x ∷ xs) (y ∷ ys) = x == y && text_eq xs ys

pub text_eq_sound : (s t : Text) → text_eq s t ≡ true → s ≡ t
unfolding text_eq
text_eq_sound [] [] h = refl
text_eq_sound [] (y ∷ ys) h = ground arith
text_eq_sound (x ∷ xs) [] h = ground arith
text_eq_sound (x ∷ xs) (y ∷ ys) h = ground (arith, text_eq_sound xs ys)

pub text_eq_refl : (s : Text) → text_eq s s ≡ true
unfolding text_eq
text_eq_refl [] = refl
text_eq_refl (x ∷ xs) = ground (arith, text_eq_refl xs)

pub text_eq_iff : (s t : Text) → (text_eq s t ≡ true) ↔ (s ≡ t)
text_eq_iff s t = (text_eq_sound s t, λ e. rw e (text_eq_refl t))

unfoldable pub is_empty : Text → Bool
is_empty [] = true
is_empty (x ∷ xs) = false

pub is_empty_iff : (s : Text) → (is_empty s ≡ true) ↔ (s ≡ [])
unfolding is_empty
is_empty_iff [] = ground arith
is_empty_iff (x ∷ xs) = ground arith

-- Go's < on strings: lexicographic by bytes.
unfoldable pub text_lt : Text → Text → Bool
text_lt s [] = false
text_lt [] (y ∷ ys) = true
text_lt (x ∷ xs) (y ∷ ys) = ltb x y || (x == y && text_lt xs ys)

-- The white space of unicode.IsSpace: one byte, and the UTF-8 of the runes of two and three bytes.
unfoldable pub is_space_byte : ℕ → Bool
is_space_byte c = (leb 9 c && leb c 13) || c == 32

unfoldable pub is_space_pair : ℕ → ℕ → Bool
is_space_pair a b = a == 0xC2 && (b == 0x85 || b == 0xA0)

unfoldable pub is_space_triple : ℕ → ℕ → ℕ → Bool
is_space_triple a b c =
    (a == 0xE1 && b == 0x9A && c == 0x80)
    || (a == 0xE2
        && b == 0x80
        && ((leb 0x80 c && leb c 0x8A) || c == 0xA8 || c == 0xA9 || c == 0xAF))
    || (a == 0xE2 && b == 0x81 && c == 0x9F)
    || (a == 0xE3 && b == 0x80 && c == 0x80)

-- How many bytes the space at the head takes; 0 if there is none. The tests on two and three bytes
-- are arguments, since a string is also trimmed from its reversed end.
module _ (pair : ℕ → ℕ → Bool) (triple : ℕ → ℕ → ℕ → Bool) where
  third_byte : ℕ → ℕ → Text → ℕ
  third_byte a b [] = 0
  third_byte a b (c ∷ r) = if triple a b c then 3 else 0

  second_byte : ℕ → Text → ℕ
  unfolding third_byte
  second_byte a [] = 0
  second_byte a (b ∷ r) = if pair a b then 2 else third_byte a b r

  unfoldable pub space_at : Text → ℕ
  unfolding second_byte is_space_byte
  space_at [] = 0
  space_at (a ∷ r) = if is_space_byte a then 1 else second_byte a r

  -- Drops spaces from the head; the number counts the bytes of the present space still to drop.
  unfoldable pub strip : ℕ → Text → Text
  strip k [] = []
  strip (suc k) (x ∷ xs) = strip k xs
  strip zero (x ∷ xs) = elim (space_at (x ∷ xs)) [ zero ↦ x ∷ xs | suc k ↦ strip k xs ]

abbrev pub pair_back : ℕ → ℕ → Bool
pair_back b a = is_space_pair a b

abbrev pub triple_back : ℕ → ℕ → ℕ → Bool
triple_back c b a = is_space_triple a b c

unfoldable pub trim_left : Text → Text
unfolding strip space_at is_space_pair is_space_triple
trim_left s = strip is_space_pair is_space_triple 0 s

unfoldable pub trim_right : Text → Text
unfolding strip space_at is_space_pair is_space_triple
trim_right s = reverse (strip pair_back triple_back 0 (reverse s))

-- strings.TrimSpace.
unfoldable pub trim_space : Text → Text
unfolding trim_left trim_right
trim_space s = trim_right (trim_left s)

unfoldable pub is_ascii : Text → Bool
is_ascii [] = true
is_ascii (x ∷ xs) = ltb x 128 && is_ascii xs

unfoldable pub lower_byte : ℕ → ℕ
lower_byte c = if leb b'A' c && leb c b'Z' then c + 32 else c

-- strings.ToLower: its ASCII path, and Unicode's case mapping (an argument) on any other string.
unfoldable pub to_lower : (Text → Text) → Text → Text
unfolding is_ascii lower_byte
to_lower lower_wide s = if is_ascii s then map lower_byte s else lower_wide s

-- strings.Join.
unfoldable pub join : Text → List Text → Text
join sep [] = []
join sep (s ∷ []) = s
join sep (s ∷ t ∷ r) = s ++ (sep ++ join sep (t ∷ r))

hex_digit : ℕ → ℕ
hex_digit n = if ltb n 10 then b'0' + n else b'a' + (n - 10)

-- hex.EncodeToString.
unfoldable pub hex_encode : Text → Text
unfolding hex_digit
hex_encode [] = []
hex_encode (b ∷ bs) = hex_digit (b / 16) ∷ hex_digit (b % 16) ∷ hex_encode bs
