-- ===== src/Wasm/Leb.antt =====
-- The numbers of a module: what the two loops read, in exact arithmetic.
use libnetq.Prelude.{
  ℕ, suc, ◌+◌, ◌-◌, ◌*◌, ◌%◌, ◌^◌, ◌≤◌, ◌<◌, ◌≡◌, refl, sym, ap, ◌∙◌, List, [], ◌∷◌, Option, none,
  some, true, false, bit_and, bit_or, leb, ltb, ◌==◌, if◌then◌else◌, arith, All, IsByte, Bool-cases,
  inl, inr,
}
use libnetq.Prelude.Bits.{bit_and_low}
use libnetq.Leb128.Unsigned.{unmarked}
use libnetq.Leb128.Incremental
use libnetq.Leb128.Incremental.{
  Leb128Dec, get_clz32, high_mask, cleared, update, joined_with, finish,
}
use libnetq.Wasm.{
  Read, ◌>>=◌, then_read, give, leb128_round, read_leb128, read_leb128_uint32, read_leb128_uint64,
}
use native.Mathlib.Nat.{mod-eq_of_lt, mul-le-mul_right, pow-le-pow_right}
use libnetq.Wasm.Digits.{pow_sum, digits, digits_lem, cleared_lem, dec, joined_value, update_marked}

-- The groups of seven bits added up, lowest first. Refused are a sum of more than `limit` bytes, and
-- a group that others follow and that passes so many bytes.
unfoldable pub read_sum : ℕ → ℕ → ℕ → Read ℕ
read_sum limit width sum [] = (none, [])
read_sum limit width sum (b ∷ bytes) =
    let more = read_sum limit (width + 7) (sum + (b - 128) * 2 ^ width) bytes in
    if ltb b 128
    then (if ltb (sum + b * 2 ^ width) (2 ^ (8 * limit))
        then (some (sum + b * 2 ^ width), bytes)
        else (none, bytes))
    else if ltb (8 * limit) (width + 7)
    then (none, bytes)
    else more

abbrev given : (ℕ → ℕ) → Option Leb128Dec × List ℕ → Option ℕ × List ℕ
given f r = then_read r (λ d. give (f d.value))

module _ (limit : ℕ) (f : ℕ → ℕ) (some_byte : 1 ≤ limit) (few : limit ≤ 8)
    (keeps : (v : ℕ) → v < 2 ^ (8 * limit) → f v ≡ v) where
  limit_power : 2 ^ (8 * limit) ≤ 2 ^ 64
  limit_power = let le : 8 * limit ≤ 64 = omega arith in pow-le-pow_right (omega arith) le

  last_group :
      (sum w b : ℕ) (next : Leb128Dec → Option Leb128Dec × List ℕ) (bytes : List ℕ)
      → sum < 2 ^ w
      → w ≤ 8 * limit
      → b < 128
      → given f (leb128_round limit next bytes (update b (dec sum w))) ≡ (
          if ltb (sum + b * 2 ^ w) (2 ^ (8 * limit))
          then (some (sum + b * 2 ^ w), bytes)
          else (none, bytes))
  unfolding update
  last_group sum w b next bytes h wide small =
      let d = digits_lem b small in
      let v = sum + b * 2 ^ w in
      let behind = finish b (joined_with b (dec sum w)) in
      let opened : update b (dec sum w) ≡ (true, behind) =
        ap (λ t. if t == 0 then (true, behind) else (false, joined_with b (dec sum w)))
          (unmarked b small) in
      let scaled : suc b * 2 ^ w ≡ b * 2 ^ w + 2 ^ w = omega arith in
      elim (Bool-cases (leb (w + digits b) (8 * limit))) [
        | inl fits ↦
            let up : suc b * 2 ^ w ≤ 2 ^ digits b * 2 ^ w =
              mul-le-mul_right (2 ^ w) (omega (arith, d.upper)) in
            let power : 2 ^ (digits b + w) ≤ 2 ^ (8 * limit) =
              pow-le-pow_right (omega arith) (ground arith) in
            let below : v < 2 ^ (8 * limit) =
              omega (arith, up, scaled, pow_sum (digits b) w, power, h) in
            let accepted : ltb v (2 ^ (8 * limit)) ≡ true = ground arith in
            let up7 : suc b * 2 ^ w ≤ 128 * 2 ^ w = mul-le-mul_right (2 ^ w) (omega arith) in
            let narrow : v < 2 ^ (w + 7) = omega (arith, up7, scaled, pow_sum w 7, h) in
            let low : bit_and b 0x7f ≡ b = bit_and_low 7 b ∙ mod-eq_of_lt small in
            let joined : (joined_with b (dec sum w)).value ≡ v =
              ap (λ g. bit_or sum (g * 2 ^ w % 2 ^ 64)) low
              ∙ joined_value sum w b h (omega (arith, below, limit_power)) in
            let value : behind.value ≡ v =
              ap (λ t. cleared t (w + 7)) joined
              ∙ cleared_lem v (w + 7) narrow (omega (arith, below, limit_power)) in
            let taken : ltb limit (Incremental.size behind) ≡ false = ground arith in
            ap (λ r. given f (leb128_round limit next bytes r)) opened
            ∙ ap (λ t. given f (if t then (none, bytes) else (some behind, bytes))) taken
            ∙ ap (λ n. (some n, bytes)) (ap f value ∙ keeps v below)
            ∙ ap (λ t. if t then (some v, bytes) else (none, bytes)) (sym accepted)
        | inr over ↦
            let one : 1 ≤ digits b = ground arith in
            let up : 2 ^ (digits b - 1) * 2 ^ w ≤ b * 2 ^ w =
              mul-le-mul_right (2 ^ w) (d.lower one) in
            let power : 2 ^ (8 * limit) ≤ 2 ^ (digits b - 1 + w) =
              pow-le-pow_right (omega arith) (ground arith) in
            let above : 2 ^ (8 * limit) ≤ v = omega (arith, up, power, pow_sum (digits b - 1) w) in
            let rejected : ltb v (2 ^ (8 * limit)) ≡ false = ground arith in
            let refused : ltb limit (Incremental.size behind) ≡ true = ground (arith, d.clz) in
            ap (λ r. given f (leb128_round limit next bytes r)) opened
            ∙ ap (λ t. given f (if t then (none, bytes) else (some behind, bytes))) refused
            ∙ ap (λ t. if t then (some v, bytes) else (none, bytes)) (sym rejected)
      ]

  other_group :
      (sum w b : ℕ) (bytes : List ℕ)
      → b < 256
      → sum < 2 ^ w
      → w ≤ 8 * limit
      → 128 ≤ b
      → (sum + (b - 128) * 2 ^ w < 2 ^ (w + 7)
          → w + 7 ≤ 8 * limit
          → given f (read_leb128 limit (dec (sum + (b - 128) * 2 ^ w) (w + 7)) bytes)
            ≡ read_sum limit (w + 7) (sum + (b - 128) * 2 ^ w) bytes)
      → given f (
          leb128_round limit
            (λ d. read_leb128 limit d bytes)
            bytes
            (false, joined_with b (dec sum w)))
        ≡ (if ltb (8 * limit) (w + 7)
            then (none, bytes)
            else read_sum limit (w + 7) (sum + (b - 128) * 2 ^ w) bytes)
  other_group sum w b bytes byte h wide high ih =
      let next : Leb128Dec → Option Leb128Dec × List ℕ = λ d. read_leb128 limit d bytes in
      let v = sum + (b - 128) * 2 ^ w in
      let more = read_sum limit (w + 7) v bytes in
      let behind = joined_with b (dec sum w) in
      elim (Bool-cases (ltb (8 * limit) (w + 7))) [
        | inl over ↦
            let refused : ltb limit (Incremental.size behind) ≡ true = ground arith in
            ap (λ t. given f (if t then (none, bytes) else next behind)) refused
            ∙ sym (ap (λ t. if t then (none, bytes) else more) over)
        | inr fits ↦
            let accepted : ltb limit (Incremental.size behind) ≡ false = ground arith in
            let room : w + 7 ≤ 64 = ground arith in
            let up : suc (b - 128) * 2 ^ w ≤ 128 * 2 ^ w = mul-le-mul_right (2 ^ w) (omega arith) in
            let scaled : suc (b - 128) * 2 ^ w ≡ (b - 128) * 2 ^ w + 2 ^ w = omega arith in
            let power : 2 ^ (w + 7) ≤ 2 ^ 64 = pow-le-pow_right (omega arith) room in
            let narrow : v < 2 ^ (w + 7) = omega (arith, up, scaled, pow_sum w 7, h) in
            let low : bit_and b 0x7f ≡ b - 128 = bit_and_low 7 b ∙ omega arith in
            let joined : behind.value ≡ v =
              ap (λ g. bit_or sum (g * 2 ^ w % 2 ^ 64)) low
              ∙ joined_value sum w (b - 128) h (omega (arith, narrow, power)) in
            ap (λ t. given f (if t then (none, bytes) else next behind)) accepted
            ∙ ap (λ v. given f (next (dec v (w + 7)))) joined
            ∙ ih narrow (ground arith)
            ∙ sym (ap (λ t. if t then (none, bytes) else more) fits)
      ]

  -- In exact arithmetic the loop reads the same.
  read_leb128-read_sum :
      (bytes : List ℕ) (sum w : ℕ)
      → All IsByte bytes
      → sum < 2 ^ w
      → w ≤ 8 * limit
      → given f (read_leb128 limit (dec sum w) bytes) ≡ read_sum limit w sum bytes
  unfolding read_leb128 read_sum
  read_leb128-read_sum [] sum w g h wide = refl
  read_leb128-read_sum (b ∷ bytes) sum w (byte, g) h wide =
      let next : Leb128Dec → Option Leb128Dec × List ℕ = λ d. read_leb128 limit d bytes in
      let v = sum + b * 2 ^ w in
      let more = read_sum limit (w + 7) (sum + (b - 128) * 2 ^ w) bytes in
      let last : Option ℕ × List ℕ =
        if ltb v (2 ^ (8 * limit)) then (some v, bytes) else (none, bytes) in
      let inner : Option ℕ × List ℕ = if ltb (8 * limit) (w + 7) then (none, bytes) else more in
      elim (Bool-cases (ltb b 128)) [
        | inl small ↦
            last_group sum w b next bytes h wide (ground arith)
            ∙ sym (ap (λ t. if t then last else inner) small)
        | inr big ↦
            let opened : update b (dec sum w) ≡ (false, joined_with b (dec sum w)) =
              update_marked b (dec sum w) byte (ground arith) in
            ap (λ r. given f (leb128_round limit next bytes r)) opened
            ∙ other_group sum w b bytes byte h wide (ground arith)
                (read_leb128-read_sum bytes (sum + (b - 128) * 2 ^ w) (w + 7) g)
            ∙ sym (ap (λ t. if t then last else inner) big)
      ]

-- On every sequence of bytes the two readers of numbers do what adding up the groups in exact
-- arithmetic does: they succeed on the same sequences, with the same number below 2^32 or 2^64, and
-- leave the same bytes.
pub read_leb128_lem :
    (bytes : List ℕ)
    → All IsByte bytes
    → (read_leb128_uint32 bytes ≡ read_sum 4 0 0 bytes)
      × (read_leb128_uint64 bytes ≡ read_sum 8 0 0 bytes)
unfolding ◌>>=◌ read_leb128_uint32 read_leb128_uint64
read_leb128_lem bytes g = (
  read_leb128-read_sum 4 (λ v. v % 2 ^ 32) (omega arith) (omega arith) (λ v h. mod-eq_of_lt h) bytes
      0 0 g (omega arith) (omega arith),
  read_leb128-read_sum 8 (λ v. v) (omega arith) (omega arith) (λ v h. refl) bytes 0 0 g
      (omega arith) (omega arith),
)
