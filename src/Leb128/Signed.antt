-- ===== src/Leb128/Signed.antt =====
-- Signed values: what is encoded is decoded again.
use libnetq.Prelude.{
  ℕ, zero, suc, ◌+◌, ◌-◌, ◌/◌, ◌^◌, ◌≤◌, ◌<◌, ◌≡◌, refl, ap, ◌∙◌, List, arith, bit_and, all_below,
  table, get_or, leb, Bool-cases, inl, inr, ◌⊎◌,
}
use mathlib.Core.Path.{subst}
use libnetq.Leb128.{bits_of_index, signed_max}
use libnetq.Leb128.Encode.{signed_length}
use libnetq.Leb128.Decode.{
  done, read_positive, read_negative, read_signed, decode_last, decode_ladder,
}
use libnetq.Leb128.Unsigned.{unmarked, power_pos, next_power}
use libnetq.Leb128.Ladder.{Chain, get_or-Chain, decode_ladder-Chain, decode_ladder_last}
use native.Mathlib.Nat.{div-lt_iff_lt-mul}

-- The number of chunks behind the first, and the last of them where it stands on a rung.
pub signed_length_lem :
    (rungs index n : ℕ)
    → (more : ℕ) × (signed_length rungs (index + 1) n ≡ index + suc more)
      × (more ≤ rungs)
      × ((more ≡ rungs) ⊎ ((more < rungs) × (n / 2 ^ bits_of_index (index + more) < 64)))
unfolding signed_length
signed_length_lem zero index n = (0, omega arith, omega arith, inl refl)
signed_length_lem (suc rungs) index n = elim (Bool-cases (leb n (signed_max (index + 1)))) [
  | inl e ↦
      let same : index ≡ index + 0 = omega arith in
      let fits : n ≤ signed_max (index + 1) = ground (arith, e) in
      let small : n / 2 ^ bits_of_index index < 64 =
        (div-lt_iff_lt-mul (power_pos (bits_of_index index))).1
          (omega (arith, fits, next_power index, power_pos (bits_of_index index))) in
      rw e (
        0,
        omega arith,
        omega arith,
        inr (omega arith, subst (λ (t : ℕ). n / 2 ^ bits_of_index t < 64) same small),
      )
  | inr e ↦
      let (more, f, h, g) = signed_length_lem rungs (index + 1) n in
      let next : index + 1 + more ≡ index + suc more = omega arith in
      rw e (
        suc more,
        omega (arith, f),
        omega (arith, h),
        elim g [
          | inl same ↦ inl (ap suc same)
          | inr (less, small) ↦
              inr (omega (arith, less), subst (λ (t : ℕ). n / 2 ^ bits_of_index t < 64) next small)
        ],
      )
]

sign_clear : (b : ℕ) → b < 64 → bit_and b 0x40 ≡ 0
unfolding all_below
sign_clear = table 64 (λ b. bit_and b 0x40) (λ b. 0) refl

sign_set : (b : ℕ) → b < 64 → bit_and (127 - b) 0x40 ≡ 64
unfolding all_below
sign_set = table 64 (λ b. bit_and (127 - b) 0x40) (λ b. 64) refl

module _ (width mask negative rungs b : ℕ) {more : ℕ} {bytes : List ℕ}
    (chain : Chain b more bytes) where
  at_end : get_or bytes (suc more - 1) 0 ≡ b
  at_end =
      let e : suc more - 1 ≡ more = omega arith in
      ap (λ (t : ℕ). get_or bytes t 0) e ∙ get_or-Chain chain

  on_rung :
      more < rungs
      → b < 128
      → decode_ladder width mask negative rungs 1 bytes bytes
        ≡ done (suc more) (read_signed width (suc more) bytes)
  on_rung h l =
      let e : 1 + more ≡ suc more = omega arith in
      decode_ladder-Chain width mask negative b bytes rungs 1 chain h (unmarked b l)
      ∙ ap (λ (t : ℕ). done t (read_signed width t bytes)) e

  pub on_rung_positive :
      more < rungs
      → b < 64
      → decode_ladder width mask negative rungs 1 bytes bytes
        ≡ done (suc more) (read_positive width 0 (suc more) bytes)
  unfolding read_signed
  on_rung_positive h l = on_rung h (omega (arith, l)) ∙ rw (at_end, sign_clear b l) refl

  pub on_rung_negative :
      (q : ℕ)
      → more < rungs
      → q < 64
      → b ≡ 127 - q
      → decode_ladder width mask negative rungs 1 bytes bytes
        ≡ done (suc more) (read_negative width 0 (suc more) bytes)
  unfolding read_signed
  on_rung_negative q h l e = on_rung h (omega (arith, e)) ∙ rw (at_end, e, sign_set q l) refl

  on_last :
      more ≡ rungs
      → decode_ladder width mask negative rungs 1 bytes bytes
        ≡ decode_last width (suc more) mask negative bytes
  on_last e =
      let f : 1 + rungs ≡ suc more = omega (arith, e) in
      decode_ladder_last width mask negative b bytes rungs 1
        (subst (λ (t : ℕ). Chain b t bytes) e chain)
      ∙ ap (λ (t : ℕ). decode_last width t mask negative bytes) f

  pub on_last_positive :
      more ≡ rungs
      → 1 ≤ negative
      → bit_and b mask ≡ 0
      → decode_ladder width mask negative rungs 1 bytes bytes
        ≡ done (suc more) (read_positive width 0 (suc more) bytes)
  unfolding decode_last
  on_last_positive e h f = on_last e ∙ ground (arith, at_end, f, h)

  pub on_last_negative :
      more ≡ rungs
      → bit_and b mask ≡ negative
      → decode_ladder width mask negative rungs 1 bytes bytes
        ≡ done (suc more) (read_negative width 0 (suc more) bytes)
  unfolding decode_last
  on_last_negative e f = on_last e ∙ ground (arith, at_end, f)
