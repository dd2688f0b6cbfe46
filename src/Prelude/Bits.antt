-- ===== src/Prelude/Bits.antt =====
-- `&`, `|` and `^` on bit fields, as arithmetic, for fields of every width.
use Prim.Native.Nat.{
  ℕ, zero, suc, ◌+◌, ◌-◌, ◌*◌, ◌/◌, ◌%◌, ◌^◌, ◌≤◌, ◌<◌, min, max, bit_and, bit_or, bit_xor,
}
use Prim.Native.Nat.{digits, bitwise, differ, bit_and-bitwise, bit_or-bitwise, bit_xor-bitwise}
use mathlib.Core.Path.{◌≡◌, refl, sym, ap, ◌∙◌}
use native.Mathlib.Nat.{
  le_refl, pow-suc, pow-succ', one-le-pow, div-div-eq-div-mul, div-add-mod, mul-mod_left,
  add-mul-mod_self_right,
}
use native.Mathlib.Omega.{arith}

-- A count of rounds that covers the first number gives the same digits as any other such count.
module _ (z : ℕ → ℕ) (f : ℕ → ℕ → ℕ) where
  digits_rounds : (n m a b : ℕ) → a ≤ n → a ≤ m → digits z f n a b ≡ digits z f m a b
  digits_rounds zero zero a b p q = refl
  digits_rounds zero (suc m) zero b p q = refl
  digits_rounds zero (suc m) (suc a) b p q = absurd (omega arith)
  digits_rounds (suc n) zero zero b p q = refl
  digits_rounds (suc n) zero (suc a) b p q = absurd (omega arith)
  digits_rounds (suc n) (suc m) zero b p q = refl
  digits_rounds (suc n) (suc m) (suc a) b p q =
      rw (digits_rounds n m (suc a / 2) (b / 2) (omega arith) (omega arith))

  lowest_digit :
      (a b : ℕ)
      → bitwise z f (suc a) b ≡ bitwise z f (suc a / 2) (b / 2) * 2 + f (suc a % 2) (b % 2)
  lowest_digit a b =
      omega (arith, digits_rounds a (suc a / 2) (suc a / 2) (b / 2) (omega arith) (le_refl _))

pub bit_or_digit : (a b : ℕ) → bit_or a b ≡ bit_or (a / 2) (b / 2) * 2 + max (a % 2) (b % 2)
bit_or_digit zero b = simp bit_or-bitwise (omega arith)
bit_or_digit (suc a) b = simp bit_or-bitwise (lowest_digit (λ y. y) max a b)

pub bit_and_digit : (a b : ℕ) → bit_and a b ≡ bit_and (a / 2) (b / 2) * 2 + min (a % 2) (b % 2)
bit_and_digit zero b = simp bit_and-bitwise (omega arith)
bit_and_digit (suc a) b = simp bit_and-bitwise (lowest_digit (λ y. 0) min a b)

zero-bit_and : (b : ℕ) → bit_and 0 b ≡ 0
zero-bit_and b = bit_and-bitwise 0 b

zero-bit_or : (b : ℕ) → bit_or 0 b ≡ b
zero-bit_or b = bit_or-bitwise 0 b

power : (k c : ℕ) → c * 2 ^ suc k ≡ 2 * (c * 2 ^ k)
power k c = omega (arith, ap (λ (t : ℕ). c * t) (pow-suc 2 k))

-- Induction on a bound of the first number, which is halved.
bit_or-zero_below : (n a : ℕ) → a ≤ n → bit_or a 0 ≡ a
bit_or-zero_below n zero h = zero-bit_or 0
bit_or-zero_below zero (suc a) h = absurd (omega arith)
bit_or-zero_below (suc n) (suc a) h =
    omega (arith, bit_or_digit (suc a) 0, bit_or-zero_below n (suc a / 2) (omega arith))

pub bit_or-zero : (a : ℕ) → bit_or a 0 ≡ a
bit_or-zero a = bit_or-zero_below a a (le_refl a)

bit_and-zero_below : (n a : ℕ) → a ≤ n → bit_and a 0 ≡ 0
bit_and-zero_below n zero h = zero-bit_and 0
bit_and-zero_below zero (suc a) h = absurd (omega arith)
bit_and-zero_below (suc n) (suc a) h =
    omega (arith, bit_and_digit (suc a) 0, bit_and-zero_below n (suc a / 2) (omega arith))

pub bit_and-zero : (a : ℕ) → bit_and a 0 ≡ 0
bit_and-zero a = bit_and-zero_below a a (le_refl a)

-- A field above bit `k` joined with what lies below it, in either order.
pub bit_or_above : (k r q : ℕ) → r < 2 ^ k → bit_or r (q * 2 ^ k) ≡ r + q * 2 ^ k
bit_or_above zero r q h = ground (arith, zero-bit_or q)
bit_or_above (suc k) r q h = ground (
  arith,
  bit_or_digit r (q * 2 ^ suc k),
  power k q,
  power k 1,
  bit_or_above k (r / 2) q (omega (arith, power k 1)),
)

pub bit_or_below : (k q r : ℕ) → r < 2 ^ k → bit_or (q * 2 ^ k) r ≡ q * 2 ^ k + r
bit_or_below zero q r h = ground (arith, bit_or-zero q)
bit_or_below (suc k) q r h = ground (
  arith,
  bit_or_digit (q * 2 ^ suc k) r,
  power k q,
  power k 1,
  bit_or_below k q (r / 2) (omega (arith, power k 1)),
)

-- Numbers with no common digit: one is a multiple of `2 ^ k`, the other below it.
pub bit_or_add : (k a b : ℕ) → a % 2 ^ k ≡ 0 → b < 2 ^ k → bit_or a b ≡ a + b
bit_or_add k a b p q = ground (arith, div-add-mod a (2 ^ k), bit_or_below k (a / 2 ^ k) b q)

-- Fields that start at the same bit are joined above it.
pub bit_or_split :
    (k a c x : ℕ) → x < 2 ^ k → bit_or (a * 2 ^ k + x) (c * 2 ^ k) ≡ bit_or a c * 2 ^ k + x
bit_or_split zero a c x h = ground arith
bit_or_split (suc k) a c x h = ground (
  arith,
  bit_or_digit (a * 2 ^ suc k + x) (c * 2 ^ suc k),
  power k a,
  power k c,
  power k 1,
  power k (bit_or a c),
  bit_or_split k a c (x / 2) (omega (arith, power k 1)),
)

pub bit_or_one : (a : ℕ) → a % 2 ≡ 1 → bit_or 1 a ≡ a
bit_or_one a h = omega (arith, bit_or_digit 1 a, zero-bit_or (a / 2))

low_field : (k q r : ℕ) → r < 2 ^ k → bit_and (q * 2 ^ k + r) (2 ^ k - 1) ≡ r
low_field zero q r h = rw bit_and-zero (omega arith)
low_field (suc k) q r h = ground (
  arith,
  bit_and_digit (q * 2 ^ suc k + r) (2 ^ suc k - 1),
  power k q,
  power k 1,
  one-le-pow k 2,
  low_field k q (r / 2) (omega (arith, power k 1)),
)

-- The `k` lowest bits.
pub bit_and_low : (k a : ℕ) → bit_and a (2 ^ k - 1) ≡ a % 2 ^ k
bit_and_low k a = ground (arith, one-le-pow k 2, low_field k (a / 2 ^ k) (a % 2 ^ k))

halves : (k a : ℕ) → a / 2 / 2 ^ k ≡ a / 2 ^ suc k
halves k a = div-div-eq-div-mul a 2 (2 ^ k) ∙ ap (λ (t : ℕ). a / t) (sym (pow-succ' 2 k))

-- The `j` bits from bit `k` on, where they stand.
pub bit_and_field : (k j a : ℕ) → bit_and a ((2 ^ j - 1) * 2 ^ k) ≡ a / 2 ^ k % 2 ^ j * 2 ^ k
bit_and_field zero j a = ground (arith, bit_and_low j a)
bit_and_field (suc k) j a = ground (
  arith,
  bit_and_digit a ((2 ^ j - 1) * 2 ^ suc k),
  power k (2 ^ j - 1),
  power k (a / 2 ^ suc k % 2 ^ j),
  halves k a,
  bit_and_field k j (a / 2),
)

bit_xor_digit : (a b : ℕ) → bit_xor a b ≡ bit_xor (a / 2) (b / 2) * 2 + differ (a % 2) (b % 2)
bit_xor_digit zero b = simp bit_xor-bitwise (omega arith)
bit_xor_digit (suc a) b = simp bit_xor-bitwise (lowest_digit (λ y. y) differ a b)

differ_bits : (x y : ℕ) → x < 2 → y < 2 → (differ x y < 2) × (differ (differ x y) y ≡ x)
differ_bits zero zero p q = (omega arith, refl)
differ_bits zero (suc zero) p q = (omega arith, refl)
differ_bits zero (suc (suc y)) p q = absurd (omega arith)
differ_bits (suc zero) zero p q = (omega arith, refl)
differ_bits (suc zero) (suc zero) p q = (omega arith, refl)
differ_bits (suc zero) (suc (suc y)) p q = absurd (omega arith)
differ_bits (suc (suc x)) y p q = absurd (omega arith)

-- The two halves of `a ^ b`.
bit_xor_halves :
    (a b : ℕ)
    → (bit_xor a b / 2 ≡ bit_xor (a / 2) (b / 2)) × (bit_xor a b % 2 ≡ differ (a % 2) (b % 2))
bit_xor_halves a b =
    let (low, _) = differ_bits (a % 2) (b % 2) (omega arith) (omega arith) in
    (omega (arith, bit_xor_digit a b), omega (arith, bit_xor_digit a b))

bit_xor_twice_below : (n a b : ℕ) → a ≤ n → b ≤ n → bit_xor (bit_xor a b) b ≡ a
bit_xor_twice_below zero zero zero p q = refl
bit_xor_twice_below zero zero (suc b) p q = absurd (omega arith)
bit_xor_twice_below zero (suc a) b p q = absurd (omega arith)
bit_xor_twice_below (suc n) a b p q =
    let (high, low) = bit_xor_halves a b in
    let (_, twice) = differ_bits (a % 2) (b % 2) (omega arith) (omega arith) in
    omega (
      arith,
      bit_xor_digit (bit_xor a b) b,
      ap (λ (t : ℕ). bit_xor t (b / 2)) high,
      ap (λ (t : ℕ). differ t (b % 2)) low,
      twice,
      bit_xor_twice_below n (a / 2) (b / 2) (omega arith) (omega arith),
    )

-- `^` by the same number undoes itself.
pub bit_xor_twice : (a b : ℕ) → bit_xor (bit_xor a b) b ≡ a
bit_xor_twice a b = bit_xor_twice_below (a + b) a b (omega arith) (omega arith)

-- A byte stays a byte under `^`.
bit_xor-lt_width : (k a b : ℕ) → a < 2 ^ k → b < 2 ^ k → bit_xor a b < 2 ^ k
bit_xor-lt_width zero zero zero p q = omega arith
bit_xor-lt_width zero zero (suc b) p q = absurd (omega arith)
bit_xor-lt_width zero (suc a) b p q = absurd (omega arith)
bit_xor-lt_width (suc k) a b p q =
    let (high, low) = bit_xor_halves a b in
    let (small, _) = differ_bits (a % 2) (b % 2) (omega arith) (omega arith) in
    omega (
      arith,
      power k 1,
      bit_xor-lt_width k (a / 2) (b / 2) (omega (arith, power k 1)) (omega (arith, power k 1)),
    )

pub bit_xor-lt-byte : (a b : ℕ) → a < 256 → b < 256 → bit_xor a b < 256
bit_xor-lt-byte a b = bit_xor-lt_width 8 a b

-- Powers of two that divide one another.
pub power_split : (k w : ℕ) → k ≤ w → 2 ^ w ≡ 2 ^ (w - k) * 2 ^ k
power_split zero w h = let e : w ≡ w - 0 = omega arith in ap (λ (t : ℕ). 2 ^ t) e ∙ omega arith
power_split (suc k) zero h = absurd (omega arith)
power_split (suc k) (suc w) h =
    let e : suc w - suc k ≡ w - k = omega arith in
    omega (
      arith,
      pow-suc 2 w,
      ap (λ (t : ℕ). t * 2) (power_split k w (omega arith)),
      ap (λ (t : ℕ). 2 ^ t * 2 ^ suc k) e,
      ap (λ (t : ℕ). 2 ^ (w - k) * t) (pow-suc 2 k),
    )

pub power_mod : (k w : ℕ) → k ≤ w → 2 ^ w % 2 ^ k ≡ 0
power_mod k w h = ap (λ (t : ℕ). t % 2 ^ k) (power_split k w h) ∙ mul-mod_left (2 ^ (w - k)) (2 ^ k)

-- A remainder by a power of two, cut further by a smaller one.
pub mod-mod-power : (k w x : ℕ) → k ≤ w → x % 2 ^ w % 2 ^ k ≡ x % 2 ^ k
mod-mod-power k w x h =
    let p = 2 ^ k in
    let c = 2 ^ (w - k) in
    let e : x % 2 ^ w + x / 2 ^ w * c * p ≡ x =
      omega (arith, div-add-mod x (2 ^ w), ap (λ (t : ℕ). x / 2 ^ w * t) (power_split k w h)) in
    sym (add-mul-mod_self_right (x % 2 ^ w) (x / 2 ^ w * c) p) ∙ ap (λ (t : ℕ). t % p) e
