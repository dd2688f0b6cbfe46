-- ===== src/Leb128/Negative.antt =====
-- Negative values: the chunks of -(m + 1) are read as its two's complement word.
use libnetq.Prelude.{
  ℕ, zero, suc, ◌+◌, ◌-◌, ◌*◌, ◌/◌, ◌%◌, ◌^◌, ◌≤◌, ◌<◌, ◌≡◌, refl, sym, ap, ◌∙◌, List, ◌++◌, arith,
  bit_and, bit_or, all_below, table, min,
}
use mathlib.Core.Path.{subst}
use libnetq.Prelude.Int.{negsuc}
use libnetq.Prelude.Bits.{power_split, power_mod, bit_or_add, bit_or_split, bit_or_one}
use libnetq.Leb128.{bits_of_index, signed_byte_at}
use libnetq.Leb128.Encode.{negative_chunks}
use libnetq.Leb128.Decode.{read_negative, negative_value_extend}
use libnetq.Leb128.Unsigned.{next_power, next_part, power_pos, low_seven}
use native.Mathlib.Nat.{
  mod-eq_of_lt, pow-le-pow_right, pow-suc, div-add-mod, one-mul, add-mul-mod_self_right,
  mul-lt-mul_of_pos_right,
}

-- The last chunk under the sign extension: the bit below the extension is set in both.
top_or :
    (w k x : ℕ) → suc k ≤ w → x < 2 ^ k → bit_or (2 ^ k + x) (2 ^ w - 2 ^ k) ≡ 2 ^ w - 2 ^ k + x
top_or w k x h l =
    let d = 2 ^ (w - suc k) in
    let whole : 2 ^ w ≡ d * 2 * 2 ^ k =
      power_split (suc k) w h ∙ ap (λ (t : ℕ). d * t) (pow-suc 2 k) ∙ omega arith in
    let pos : 1 ≤ d = power_pos (w - suc k) in
    let odd : bit_or 1 (d * 2 - 1) ≡ d * 2 - 1 = bit_or_one (d * 2 - 1) (omega arith) in
    let top : 2 ^ w - 2 ^ k ≡ (d * 2 - 1) * 2 ^ k =
      let step : d * 2 - 1 + 1 ≡ d * 2 = omega arith in
      omega (arith, whole, ap (λ (t : ℕ). t * 2 ^ k) step) in
    ap (bit_or (2 ^ k + x)) top
    ∙ ap (λ (t : ℕ). bit_or (t + x) ((d * 2 - 1) * 2 ^ k)) (sym (one-mul (2 ^ k)))
    ∙ bit_or_split k 1 (d * 2 - 1) x l
    ∙ ap (λ (t : ℕ). t * 2 ^ k + x) odd
    ∙ ap (λ (t : ℕ). t + x) (sym top)

low_seven_and : (b : ℕ) → b < 256 → bit_and b 0x7f ≡ b % 128
unfolding all_below
low_seven_and = table 256 (λ b. bit_and b 0x7f) (λ b. b % 128) refl

-- What lies above a group, joined with the group of a negative number.
rest_lem :
    (a q p w : ℕ) → a + (q / 128 + 1) * (128 * p) ≡ w → a + (127 - q % 128) * p + (q + 1) * p ≡ w
rest_lem a q p w e =
    let inverse : 127 - q % 128 + q % 128 ≡ 127 = omega arith in
    omega (arith, e, ap (λ (t : ℕ). t * p) inverse, ap (λ (t : ℕ). t * p) (div-add-mod q 128))

-- A chunk that others follow, without its mark.
group :
    (m index : ℕ)
    → bit_and (bit_or (signed_byte_at (negsuc m) index) 0x80) 0x7f
      ≡ 127 - m / 2 ^ bits_of_index index % 128
group m index = low_seven (signed_byte_at (negsuc m) index) (omega arith) ∙ omega arith

pub last_group :
    (m index : ℕ)
    → m / 2 ^ bits_of_index index < 128
    → bit_and (signed_byte_at (negsuc m) index) 0x7f ≡ 127 - m / 2 ^ bits_of_index index
last_group m index h = low_seven_and (signed_byte_at (negsuc m) index) (omega arith) ∙ omega arith

-- The last chunk and the sign bit: `x` is what stands below the sign bit.
pub record Last (width index m : ℕ) : Type 0 where
  pub x : ℕ
  pub below :
      x + (m / 2 ^ bits_of_index index + 1) * 2 ^ bits_of_index index
      ≡ 2 ^ (min (bits_of_index (index + 1)) width - 1)
  pub shifted :
      (127 - m / 2 ^ bits_of_index index) * 2 ^ bits_of_index index % 2 ^ width
      ≡ 2 ^ (min (bits_of_index (index + 1)) width - 1) + x
  pub narrow : m / 2 ^ bits_of_index index < 128

lowest-Last :
    (width index m : ℕ)
    → 1 ≤ width
    → Last width index m
    → bit_or
          (bit_and (signed_byte_at (negsuc m) index) 0x7f * 2 ^ bits_of_index index % 2 ^ width)
          (negative_value_extend width (index + 1))
        + (m / 2 ^ bits_of_index index + 1) * 2 ^ bits_of_index index
      ≡ 2 ^ width
unfolding negative_value_extend
lowest-Last width index m p last =
    let k = min (bits_of_index (index + 1)) width - 1 in
    let q = m / 2 ^ bits_of_index index in
    let size = 2 ^ bits_of_index index in
    let room : 2 ^ k ≤ 2 ^ width =
      pow-le-pow_right {n = 2} (omega arith) {i = k} {j = width} (omega arith) in
    let small : last.x < 2 ^ k = omega (arith, last.below, power_pos (bits_of_index index)) in
    let joined : bit_or (bit_and (signed_byte_at (negsuc m) index) 0x7f * size % 2 ^ width)
          (2 ^ width - 2 ^ k)
        ≡ 2 ^ width - 2 ^ k + last.x =
      ap (λ (t : ℕ). bit_or (t * size % 2 ^ width) (2 ^ width - 2 ^ k))
        (last_group m index last.narrow)
      ∙ ap (λ (t : ℕ). bit_or t (2 ^ width - 2 ^ k)) last.shifted
      ∙ top_or width k last.x (omega arith) small in
    ap (λ (t : ℕ). t + (q + 1) * size) joined ∙ omega (arith, last.below, room)

-- One group more below what is read.
read_more :
    (width index m r : ℕ)
    → bits_of_index (index + 1) ≤ width
    → r + (m / 2 ^ bits_of_index (index + 1) + 1) * 2 ^ bits_of_index (index + 1) ≡ 2 ^ width
    → bit_or r (
          bit_and (bit_or (signed_byte_at (negsuc m) index) 0x80) 0x7f
          * 2 ^ bits_of_index index
          % 2 ^ width)
        + (m / 2 ^ bits_of_index index + 1) * 2 ^ bits_of_index index
      ≡ 2 ^ width
read_more width index m r h e =
    let k = bits_of_index (index + 1) in
    let q = m / 2 ^ bits_of_index index in
    let size = 2 ^ bits_of_index index in
    let g = 127 - q % 128 in
    let room : 2 ^ k ≤ 2 ^ width = pow-le-pow_right {n = 2} (omega arith) {i = k} {j = width} h in
    let small : g * size < 2 ^ k =
      subst (λ (t : ℕ). g * size < t) (sym (next_power index))
        (mul-lt-mul_of_pos_right (omega arith) (power_pos (bits_of_index index))) in
    let even : r % 2 ^ k ≡ 0 =
      sym (add-mul-mod_self_right r (m / 2 ^ k + 1) (2 ^ k))
      ∙ ap (λ (t : ℕ). t % 2 ^ k) e
      ∙ power_mod k width h in
    let whole : r + (q / 128 + 1) * (128 * size) ≡ 2 ^ width =
      ap (λ (t : ℕ). r + (q / 128 + 1) * t) (sym (next_power index))
      ∙ ap (λ (t : ℕ). r + (t + 1) * 2 ^ k) (sym (next_part m index))
      ∙ e in
    let joined : bit_or r
          (bit_and (bit_or (signed_byte_at (negsuc m) index) 0x80) 0x7f * size % 2 ^ width)
        ≡ r + g * size =
      ap (λ (t : ℕ). bit_or r (t * size % 2 ^ width)) (group m index)
      ∙ ap (bit_or r) (mod-eq_of_lt (omega (arith, small, room)))
      ∙ bit_or_add k r (g * size) even small in
    ap (λ (t : ℕ). t + (q + 1) * size) joined ∙ rest_lem r q size (2 ^ width) whole

pub read_negative-chunks :
    (width more index m : ℕ) (rest : List ℕ)
    → 1 ≤ width
    → bits_of_index (index + more) ≤ width
    → Last width (index + more) m
    → read_negative width index (suc more) (negative_chunks (negsuc m) index (suc more) ++ rest)
        + (m / 2 ^ bits_of_index index + 1) * 2 ^ bits_of_index index
      ≡ 2 ^ width
unfolding read_negative negative_chunks negative_value_extend
read_negative-chunks width zero index m rest p h last =
    let e : index + 0 ≡ index = omega arith in
    lowest-Last width index m p (subst (λ (t : ℕ). Last width t m) e last)
read_negative-chunks width (suc more) index m rest p h last =
    let e : index + suc more ≡ index + 1 + more = omega arith in
    read_more width index m
      (read_negative width (index + 1) (suc more)
        (negative_chunks (negsuc m) (index + 1) (suc more) ++ rest))
      (omega (arith, h))
      (read_negative-chunks width more (index + 1) m rest p
        (subst (λ (t : ℕ). bits_of_index t ≤ width) e h) (subst (λ (t : ℕ). Last width t m) e last))
