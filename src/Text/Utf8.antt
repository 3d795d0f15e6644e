-- ===== src/Text/Utf8.antt =====
-- utf8.ValidString of package unicode/utf8: encoding/json writes a string that passes it as it is.
use rootforge.Prelude.{
  ℕ, zero, suc, ◌<◌, ◌≡◌, refl, Bool, true, false, ◌&&◌, Option, none, some, [], ◌∷◌, ltb, leb,
  ◌==◌, if◌then◌else◌, All, take, arith,
}
use rootforge.Text.{Text, hex_encode}

-- Of the first byte of a rune: how many bytes follow, and the range of the next.
lead : ℕ → Option (ℕ × ℕ × ℕ)
lead b =
    if ltb b 0x80
    then some (0, 0, 0)
    else if leb 0xC2 b && leb b 0xDF
    then some (1, 0x80, 0xBF)
    else if b == 0xE0
    then some (2, 0xA0, 0xBF)
    else if b == 0xED
    then some (2, 0x80, 0x9F)
    else if leb 0xE1 b && leb b 0xEF
    then some (2, 0x80, 0xBF)
    else if b == 0xF0
    then some (3, 0x90, 0xBF)
    else if leb 0xF1 b && leb b 0xF3
    then some (3, 0x80, 0xBF)
    else if b == 0xF4
    then some (3, 0x80, 0x8F)
    else none

-- So many bytes of a rune are still to come, the next one in this range.
rest_is_utf8 : ℕ → ℕ → ℕ → Text → Bool
unfolding lead
rest_is_utf8 zero low high [] = true
rest_is_utf8 (suc n) low high [] = false
rest_is_utf8 zero low high (b ∷ s) = elim (lead b) [
  | none ↦ false
  | some (n, l, h) ↦ rest_is_utf8 n l h s
]
rest_is_utf8 (suc n) low high (b ∷ s) = leb low b && leb b high && rest_is_utf8 n 0x80 0xBF s

unfoldable pub is_utf8 : Text → Bool
unfolding rest_is_utf8
is_utf8 s = rest_is_utf8 0 0 0 s

abbrev pub AreBytes : Text → Type 0
AreBytes s = All (λ (b : ℕ). b < 256) s

rest_ascii : (s : Text) → All (λ (b : ℕ). b < 128) s → rest_is_utf8 0 0 0 s ≡ true
unfolding rest_is_utf8 lead
rest_ascii [] h = refl
rest_ascii (b ∷ s) h = ground (arith, h.0, rest_ascii s h.1)

pub ascii-is_utf8 : (s : Text) → All (λ (b : ℕ). b < 128) s → is_utf8 s ≡ true
unfolding is_utf8
ascii-is_utf8 s h = rest_ascii s h

pub hex_encode-ascii : (s : Text) → AreBytes s → All (λ (b : ℕ). b < 128) (hex_encode s)
unfolding hex_encode
hex_encode-ascii [] h = tt
hex_encode-ascii (b ∷ s) h = (ground (arith, h.0), (ground arith, hex_encode-ascii s h.1))

pub take-AreBytes : (n : ℕ) (s : Text) → AreBytes s → AreBytes (take n s)
take-AreBytes zero s h = tt
take-AreBytes (suc n) [] h = tt
take-AreBytes (suc n) (b ∷ s) h = (h.0, take-AreBytes n s h.1)
