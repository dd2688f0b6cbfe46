-- ===== src/Utf/Utf16.antt =====
-- Units of UTF-16: the characters below 0x10000, and what becomes of the others.
use libnetq.Prelude.{
  ℕ, ◌*◌, ◌/◌, ◌%◌, ◌^◌, ◌≤◌, ◌<◌, ◌≡◌, ◌≢◌, ap, ◌∙◌, List, [], ◌∷◌, ◌++◌, Option, none, some,
  bit_and, arith, length,
}
use libnetq.Prelude.Int.{pos}
use libnetq.Prelude.Bits.{bit_and_low, bit_and_field}
use libnetq.Utf.{uchar_next16, uchar_push16, uchar_size16, room16}

-- The six bits that mark a surrogate.
marks : (c : ℕ) → bit_and c 0xFC00 ≡ c / 1024 % 64 * 1024
marks c = bit_and_field 10 6 c

-- A character of one unit that is no surrogate.
abbrev pub IsBmp : ℕ → Type 0
IsBmp c = (c < 0x10000) × (c / 0x800 ≢ 0x1B)

pub next16_bmp : (c : ℕ) (rest : List ℕ) → IsBmp c → uchar_next16 (c ∷ rest) ≡ some (c, rest)
unfolding uchar_next16
next16_bmp c rest (p, q) = ground (arith, marks c)

pub push16_bmp :
    (room : Option ℕ) (c : ℕ) → c < 0x10000 → 1 ≤ room16 room → uchar_push16 room (pos c) ≡ c ∷ []
unfolding uchar_push16
push16_bmp room c p h = ground arith

pub length-push16 : (c : ℕ) → length (uchar_push16 none (pos c)) ≡ uchar_size16 (pos c)
unfolding uchar_push16 uchar_size16
length-push16 c = ground arith

-- A unit pair of a character from 0x10000 on is written without the marks of the surrogates: it
-- is read as two characters below 0x400.
uchar_next16-uchar_push16_pair :
    (c : ℕ) (rest : List ℕ)
    → 0x10000 ≤ c
    → c < 0x110000
    → (uchar_next16 (uchar_push16 none (pos c) ++ rest)
        ≡ some (c / 2 ^ 10 % 2 ^ 10, c % 2 ^ 10 ∷ rest))
      × (uchar_next16 (c % 2 ^ 10 ∷ rest) ≡ some (c % 2 ^ 10, rest))
unfolding uchar_push16
uchar_next16-uchar_push16_pair c rest p q =
    let high = c / 2 ^ 10 % 2 ^ 10 in
    let low = c % 2 ^ 10 in
    let units : uchar_push16 none (pos c) ≡ high ∷ low ∷ [] =
      ground (arith, bit_and_low 10 (c / 2 ^ 10), bit_and_low 10 c) in
    (
      ap (λ (u : List ℕ). uchar_next16 (u ++ rest)) units
          ∙ next16_bmp high (low ∷ rest) (omega arith, omega arith),
      next16_bmp low rest (omega arith, omega arith),
    )

-- Every pair of a high and a low surrogate is read as the same character, 0x360DC00.
uchar_next16_surrogates :
    (high low : ℕ) (rest : List ℕ)
    → high / 2 ^ 10 ≡ 0x36
    → low / 2 ^ 10 ≡ 0x37
    → uchar_next16 (high ∷ low ∷ rest) ≡ some (0x360DC00, rest)
unfolding uchar_next16
uchar_next16_surrogates high low rest p q =
    let e : bit_and high 0xFC00 ≡ 0xD800 = omega (arith, marks high) in
    let f : bit_and low 0xFC00 ≡ 0xDC00 = omega (arith, marks low) in ground (arith, e, f)
