-- ===== src/Base64/Digits.antt =====
-- The digits of bytes, and the bytes of digits.
use libnetq.Prelude.{ℕ, ◌+◌, ◌*◌, ◌/◌, ◌%◌, ◌^◌, ◌<◌, ◌≡◌, ◌∙◌, bit_and, bit_or, arith}
use libnetq.Prelude.Bits.{bit_and_low, bit_and_field, bit_or_add}
use libnetq.Base64.{byte1, byte2, byte3}

-- The values of the digits: the first, the second of a byte that ends the input and of one that does
-- not, and so on.
abbrev pub d1 : ℕ → ℕ
d1 a = bit_and (a / 2 ^ 2) 0x3F

abbrev pub e1 : ℕ → ℕ
e1 a = bit_and (a * 2 ^ 4) 0x3F

abbrev pub d2 : ℕ → ℕ → ℕ
d2 a b = bit_or (e1 a) (bit_and (b / 2 ^ 4) 0x0F)

abbrev pub e2 : ℕ → ℕ
e2 b = bit_and (b * 2 ^ 2) 0x3F

abbrev pub d3 : ℕ → ℕ → ℕ
d3 b c = bit_or (e2 b) (bit_and (c / 2 ^ 6) 0x03)

abbrev pub d4 : ℕ → ℕ
d4 c = bit_and c 0x3F

pub d1_lem : (a : ℕ) → d1 a ≡ a / 4 % 64
d1_lem a = bit_and_low 6 (a / 2 ^ 2)

pub e1_lem : (a : ℕ) → e1 a ≡ a % 4 * 16
e1_lem a = bit_and_low 6 (a * 2 ^ 4) ∙ omega arith

pub d2_lem : (a b : ℕ) → d2 a b ≡ a % 4 * 16 + b / 16 % 16
d2_lem a b =
    ground
      (arith, e1_lem a, bit_and_low 4 (b / 2 ^ 4), bit_or_add 4 (e1 a) (bit_and (b / 2 ^ 4) 0x0F))

pub e2_lem : (b : ℕ) → e2 b ≡ b % 16 * 4
e2_lem b = bit_and_low 6 (b * 2 ^ 2) ∙ omega arith

pub d3_lem : (b c : ℕ) → d3 b c ≡ b % 16 * 4 + c / 64 % 4
d3_lem b c =
    ground
      (arith, e2_lem b, bit_and_low 2 (c / 2 ^ 6), bit_or_add 2 (e2 b) (bit_and (c / 2 ^ 6) 0x03))

pub d4_lem : (c : ℕ) → d4 c ≡ c % 64
d4_lem c = bit_and_low 6 c

-- A byte is joined from two digits that have its bits.
pub byte1_lem : (a x y : ℕ) → a < 256 → x ≡ a / 4 % 64 → y / 16 ≡ a % 4 → byte1 x y ≡ a
byte1_lem a x y h p q = ground (arith, bit_or_add 2 (x * 2 ^ 2) (y / 2 ^ 4))

pub byte2_lem : (b x y : ℕ) → b < 256 → x % 16 ≡ b / 16 % 16 → y / 4 ≡ b % 16 → byte2 x y ≡ b
byte2_lem b x y h p q =
    ground
      (arith, bit_and_field 4 4 (x * 2 ^ 4), bit_or_add 4 (bit_and (x * 2 ^ 4) 0xF0) (y / 2 ^ 2))

pub byte3_lem : (c x y : ℕ) → c < 256 → x % 4 ≡ c / 64 % 4 → y ≡ c % 64 → byte3 x y ≡ c
byte3_lem c x y h p q = ground (arith, bit_or_add 6 (x * 2 ^ 6) y)

pub pad2 : (a : ℕ) → bit_and (e1 a * 2 ^ 4) 0xF0 ≡ 0
pad2 a = ground (arith, bit_and_field 4 4 (e1 a * 2 ^ 4), e1_lem a)

pub pad3 : (b : ℕ) → e2 b * 2 ^ 6 % 256 ≡ 0
pad3 b = omega (arith, e2_lem b)
