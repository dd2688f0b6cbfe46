-- ===== src/Utf/Tail.antt =====
-- The bytes behind the first.
use libnetq.Prelude.{
  ℕ, suc, ◌+◌, ◌*◌, ◌/◌, ◌%◌, ◌^◌, ◌≡◌, sym, ap, ◌∙◌, List, ◌∷◌, bit_and, bit_or, arith,
}
use libnetq.Prelude.Bits.{bit_and_low, bit_or_above, bit_or_below}
use libnetq.Utf.{next8_tail, tail_byte}
use native.Mathlib.Nat.{div-div-eq-div-mul}
use native.Mathlib.Numerals.{towards_suc}

pub tail_byte_lem : (c shift : ℕ) → tail_byte c shift ≡ c / 2 ^ shift % 64 + 128
tail_byte_lem c shift =
    ap (λ (t : ℕ). bit_or t 0x80) (bit_and_low 6 (c / 2 ^ shift))
    ∙ bit_or_above 6 (c / 2 ^ shift % 64) 2 (omega arith)

-- Six digits more.
six_more : (c shift : ℕ) → c / 2 ^ (shift + 6) * 64 + c / 2 ^ shift % 64 ≡ c / 2 ^ shift
six_more c shift =
    let e : 2 ^ (shift + 6) ≡ 2 ^ shift * 64 = simp towards_suc (omega arith) in
    omega (arith, ap (λ (t : ℕ). c / t) e ∙ sym (div-div-eq-div-mul c (2 ^ shift) 64))

-- A byte of the tail joins the next six digits to those that were read.
pub next8_tail_step :
    (left c shift : ℕ) (rest : List ℕ)
    → next8_tail (suc left) (c / 2 ^ (shift + 6)) (tail_byte c shift ∷ rest)
      ≡ next8_tail left (c / 2 ^ shift) rest
unfolding next8_tail
next8_tail_step left c shift rest =
    let b = tail_byte c shift in
    let e = tail_byte_lem c shift in
    let low : bit_and b 0x3F ≡ c / 2 ^ shift % 64 = bit_and_low 6 b ∙ omega (arith, e) in
    let joined : bit_or (c / 2 ^ (shift + 6) * 2 ^ 6) (bit_and b 0x3F) ≡ c / 2 ^ shift =
      ap (bit_or (c / 2 ^ (shift + 6) * 2 ^ 6)) low
      ∙ bit_or_below 6 (c / 2 ^ (shift + 6)) (c / 2 ^ shift % 64) (omega arith)
      ∙ six_more c shift in
    ground (arith, e, ap (λ (v : ℕ). next8_tail left v rest) joined)
