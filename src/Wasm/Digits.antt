-- ===== src/Wasm/Digits.antt =====
-- One group of a number in the incremental decoder: its digits, and the value that it is joined to.
use libnetq.Prelude.{
  ℕ, ◌+◌, ◌-◌, ◌*◌, ◌%◌, ◌^◌, ◌≤◌, ◌<◌, ◌≡◌, refl, sym, ap, ◌∙◌, Bool, true, false, bit_and, bit_or,
  leb, ltb, ◌==◌, ◌&&◌, if◌then◌else◌, arith, all_below, all_below_sound, table, Bool-cases, inl,
  inr, and_true,
}
use libnetq.Prelude.Bits.{bit_and_low, bit_or_above, power_split}
use libnetq.Timer.{clz_loop}
use libnetq.Leb128.Incremental.{Leb128Dec, get_clz32, cleared, update, joined_with, finish}
use native.Mathlib.Nat.{mod-eq_of_lt}

pub pow_sum : (a b : ℕ) → 2 ^ (a + b) ≡ 2 ^ a * 2 ^ b
pow_sum a b =
    let e : a + b - b ≡ a = omega arith in
    power_split b (a + b) (omega arith) ∙ ap (λ (t : ℕ). 2 ^ t * 2 ^ b) e

-- The binary digits of a group.
abbrev pub digits : ℕ → ℕ
digits b = 7 - (get_clz32 b - 25)

abbrev digits_fit : ℕ → Bool
digits_fit b =
    ltb b (2 ^ digits b)
    && (leb (get_clz32 b) 32
        && (if b == 0 then digits b == 0 else (leb 1 (digits b) && leb (2 ^ (digits b - 1)) b)))

digits_table : all_below 128 digits_fit ≡ true
unfolding all_below get_clz32 clz_loop
digits_table = refl

pub record Digits (b : ℕ) : Type 0 where
  pub upper : b < 2 ^ digits b
  pub clz : get_clz32 b ≤ 32
  pub lower : 1 ≤ digits b → 2 ^ (digits b - 1) ≤ b

pub digits_lem : (b : ℕ) → b < 128 → Digits b
digits_lem b h =
    let fit = all_below_sound 128 digits_fit b digits_table h in
    let (u, rest) = and_true (ltb b (2 ^ digits b)) _ fit in
    let (c, l) = and_true (leb (get_clz32 b) 32) _ rest in
    record { upper = ground (arith, u); clz = ground (arith, c); lower = λ p. ground (arith, l) }

marked_high : (b : ℕ) → b < 256 → 128 ≤ b → bit_and b 0x80 ≡ 128
unfolding all_below
marked_high b h p =
    let e : b - 128 + 128 ≡ b = omega arith in
    ap (λ (t : ℕ). bit_and t 0x80) (sym e)
    ∙ table 128 (λ b. bit_and (b + 128) 0x80) (λ b. 128) refl (b - 128) (omega arith)

mask_lem : (w : ℕ) → w < 64 → 2 ^ 64 - 1 - (2 ^ 64 - 1) * 2 ^ w % 2 ^ 64 ≡ 2 ^ w - 1
unfolding all_below
mask_lem = table 64 (λ w. 2 ^ 64 - 1 - (2 ^ 64 - 1) * 2 ^ w % 2 ^ 64) (λ w. 2 ^ w - 1) refl

-- A value that fits is not changed when what is above it is cleared.
pub cleared_lem : (v w : ℕ) → v < 2 ^ w → v < 2 ^ 64 → cleared v w ≡ v
cleared_lem v w h small = elim (Bool-cases (leb 64 w)) [
  | inl wide ↦
      ap (λ t. bit_and v (2 ^ 64 - 1 - (if t then 0 else (2 ^ 64 - 1) * 2 ^ w % 2 ^ 64))) wide
      ∙ bit_and_low 64 v
      ∙ mod-eq_of_lt small
  | inr narrow ↦
      ap (λ t. bit_and v (2 ^ 64 - 1 - (if t then 0 else (2 ^ 64 - 1) * 2 ^ w % 2 ^ 64))) narrow
      ∙ ap (bit_and v) (mask_lem w (ground arith))
      ∙ bit_and_low w v
      ∙ mod-eq_of_lt h
]

abbrev pub dec : ℕ → ℕ → Leb128Dec
dec sum width = record { value = sum; bit_width = width; is_signed = false }

-- A group that stays below 2^64 is joined by adding it.
pub joined_value :
    (sum width g : ℕ)
    → sum < 2 ^ width
    → g * 2 ^ width < 2 ^ 64
    → bit_or sum (g * 2 ^ width % 2 ^ 64) ≡ sum + g * 2 ^ width
joined_value sum width g h small = ap (bit_or sum) (mod-eq_of_lt small) ∙ bit_or_above width sum g h

pub update_marked :
    (b : ℕ) (d : Leb128Dec) → b < 256 → 128 ≤ b → update b d ≡ (false, joined_with b d)
unfolding update
update_marked b d h p =
    ap (λ t. if t == 0 then (true, finish b (joined_with b d)) else (false, joined_with b d))
      (marked_high b h p)
