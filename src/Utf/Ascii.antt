-- ===== src/Utf/Ascii.antt =====
-- `orAllChars < 0x80`, for the characters of a text.
use libnetq.Prelude.{
  ℕ, zero, suc, ◌/◌, ◌^◌, ◌<◌, ◌≤◌, ◌+◌, ◌≡◌, sym, ap, ◌∙◌, List, [], ◌∷◌, Bool, true, ◌&&◌, bit_or,
  ltb, arith,
}
use libnetq.Prelude.Bits.{bit_or_digit, bit_or-zero}
use libnetq.Utf.Text.{or_all}
use mathlib.Core.Bool.{and_assoc, and-true}
use native.Mathlib.Nat.{pow-suc}

abbrev pub all_ascii : List ℕ → Bool
all_ascii [] = true
all_ascii (c ∷ cs) = ltb c 0x80 && all_ascii cs

le-bit_or : (n a b : ℕ) → a ≤ n → b ≤ n → (a ≤ bit_or a b) × (b ≤ bit_or a b)
le-bit_or zero a b p q = (omega arith, omega arith)
le-bit_or (suc n) a b p q =
    let (below, above) = le-bit_or n (a / 2) (b / 2) (omega arith) (omega arith) in
    (omega (arith, bit_or_digit a b, below, above), omega (arith, bit_or_digit a b, below, above))

bit_or_lt : (k a b : ℕ) → a < 2 ^ k → b < 2 ^ k → bit_or a b < 2 ^ k
bit_or_lt zero zero zero p q = omega (arith, bit_or-zero 0)
bit_or_lt zero zero (suc b) p q = absurd (omega arith)
bit_or_lt zero (suc a) b p q = absurd (omega arith)
bit_or_lt (suc k) a b p q = omega (
  arith,
  bit_or_digit a b,
  pow-suc 2 k,
  bit_or_lt k (a / 2) (b / 2) (omega (arith, pow-suc 2 k)) (omega (arith, pow-suc 2 k)),
)

ltb-bit_or : (a b : ℕ) → ltb (bit_or a b) 0x80 ≡ (ltb a 0x80 && ltb b 0x80)
ltb-bit_or a b =
    let (below, above) = le-bit_or (a + b) a b (omega arith) (omega arith) in
    ground (arith, below, above, bit_or_lt 7 a b)

or_all-all_ascii_from :
    (all : ℕ) (cs : List ℕ) → ltb (or_all all cs) 0x80 ≡ (ltb all 0x80 && all_ascii cs)
or_all-all_ascii_from all [] = sym (and-true (ltb all 0x80))
or_all-all_ascii_from all (c ∷ cs) =
    or_all-all_ascii_from (bit_or all c) cs
    ∙ ap (λ b. b && all_ascii cs) (ltb-bit_or all c)
    ∙ and_assoc (ltb all 0x80) (ltb c 0x80) (all_ascii cs)

pub or_all-all_ascii : (cs : List ℕ) → ltb (or_all 0 cs) 0x80 ≡ all_ascii cs
or_all-all_ascii cs = or_all-all_ascii_from 0 cs
