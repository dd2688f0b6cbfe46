-- ===== src/Prelude/Int.antt =====
-- Signed integers over the native numbers, under the library's names, and their two's complement
-- words of `k` bits.
use Prim.Native.Nat.{ℕ, suc, ◌+◌, ◌-◌, ◌%◌, ◌^◌, ◌<◌, ◌≤◌}
use mathlib.Core.Bool.{Bool}
use mathlib.Core.Path.{◌≡◌}
use native.Mathlib.Nat.{mod-eq_of_lt, one-le-pow, pow-suc}
use native.Mathlib.Omega.{arith}
use libnetq.Prelude.Tests.{ltb, leb, if◌then◌else◌}

-- `negsuc n` is -(n + 1).
pub data ℤ : Type 0 where
  pos : ℕ → ℤ
  negsuc : ℕ → ℤ

-- `-2 ^ k` up to `2 ^ k - 1`: the values of a signed type of `k + 1` bits.
abbrev pub FitsBits : ℕ → ℤ → Type 0
FitsBits k (pos n) = n < 2 ^ k
FitsBits k (negsuc n) = n < 2 ^ k

-- The pattern of `k` bits that stands for an integer, and the integer that a pattern of `k + 1` bits
-- stands for.
unfoldable pub to_word : ℕ → ℤ → ℕ
to_word k (pos n) = n % 2 ^ k
to_word k (negsuc n) = 2 ^ k - 1 - n % 2 ^ k

unfoldable pub of_word : ℕ → ℕ → ℤ
of_word k w = if ltb w (2 ^ k) then pos w else negsuc (2 ^ suc k - 1 - w)

pub of_word-to_word : (k : ℕ) (v : ℤ) → FitsBits k v → of_word k (to_word (suc k) v) ≡ v
unfolding of_word to_word
of_word-to_word k (pos n) h =
    ground (arith, pow-suc 2 k, mod-eq_of_lt {n = n} {m = 2 ^ suc k} (omega (arith, pow-suc 2 k)))
of_word-to_word k (negsuc n) h =
    ground (arith, pow-suc 2 k, mod-eq_of_lt {n = n} {m = 2 ^ suc k} (omega (arith, pow-suc 2 k)))

pub to_word-lt : (k : ℕ) (v : ℤ) → to_word k v < 2 ^ k
unfolding to_word
to_word-lt k (pos n) = ground (arith, one-le-pow k 2)
to_word-lt k (negsuc n) = ground (arith, one-le-pow k 2)

abbrev pub pos_part : ℤ → ℕ
pos_part (pos n) = n
pos_part (negsuc n) = 0

abbrev pub neg_part : ℤ → ℕ
neg_part (pos n) = 0
neg_part (negsuc n) = suc n

infixl 65 ◌+ℤ◌
infix 50 ◌≤ℤ◌ ◌<ℤ◌
abbrev pub ◌≤ℤ◌ : ℤ → ℤ → Type 0
a ≤ℤ b = pos_part a + neg_part b ≤ pos_part b + neg_part a

abbrev pub ◌<ℤ◌ : ℤ → ℤ → Type 0
a <ℤ b = pos_part a + neg_part b < pos_part b + neg_part a

-- The test `a < b`, and the distance `b - a` where it holds.
abbrev pub int_ltb : ℤ → ℤ → Bool
int_ltb a b = ltb (pos_part a + neg_part b) (pos_part b + neg_part a)

abbrev pub distance : ℤ → ℤ → ℕ
distance a b = pos_part b + neg_part a - (pos_part a + neg_part b)

-- The difference of two natural numbers, and the sum of two integers.
abbrev pub sub_ℕ : ℕ → ℕ → ℤ
sub_ℕ a b = if leb b a then pos (a - b) else negsuc (b - a - 1)

unfoldable pub ◌+ℤ◌ : ℤ → ℤ → ℤ
a +ℤ b = sub_ℕ (pos_part a + pos_part b) (neg_part a + neg_part b)

pub +ℤ_parts :
    (a b : ℤ)
    → pos_part (a +ℤ b) + neg_part a + neg_part b ≡ neg_part (a +ℤ b) + pos_part a + pos_part b
unfolding ◌+ℤ◌
+ℤ_parts a b = ground arith
