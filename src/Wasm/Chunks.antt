-- ===== src/Wasm/Chunks.antt =====
-- The groups that an encoder makes of a number add up to the number.
use libnetq.Prelude.{
  ℕ, zero, suc, ◌+◌, ◌-◌, ◌*◌, ◌/◌, ◌%◌, ◌^◌, ◌≤◌, ◌<◌, ◌≡◌, refl, ap, ◌∙◌, List, ◌∷◌, ◌++◌, Option,
  none, some, false, bit_or, leb, ltb, if◌then◌else◌, arith, all_below, table, Bool-cases, inl, inr,
  All, IsByte,
}
use libnetq.Leb128.{bits_of_index, byte_at, unsigned_max}
use libnetq.Leb128.Encode.{positive_chunks, unsigned_length}
use libnetq.Leb128.Unsigned.{unsigned_length-extra, extra, next_power, next_part, scaled, power_pos}
use libnetq.Wasm.Leb.{read_sum}
use mathlib.Core.Path.{subst}
use native.Mathlib.Nat.{mod-eq_of_lt, div-lt_iff_lt-mul, pow-le-pow_right}

marked_group : (b : ℕ) → b < 256 → bit_or b 0x80 ≡ 128 + b % 128
unfolding all_below
marked_group = table 256 (λ b. bit_or b 0x80) (λ b. 128 + b % 128) refl

-- What is read of a number up to a group, and what is still to come.
abbrev IsUpTo : ℕ → ℕ → ℕ → Type 0
IsUpTo v index sum = sum + v / 2 ^ bits_of_index index * 2 ^ bits_of_index index ≡ v

module _ (limit v : ℕ) (small : v < 2 ^ (8 * limit)) (rest : List ℕ) where
  read_sum-last :
      (index sum : ℕ)
      → IsUpTo v index sum
      → v / 2 ^ bits_of_index index < 128
      → read_sum limit (bits_of_index index) sum (byte_at v index ∷ rest) ≡ (some v, rest)
  unfolding read_sum
  read_sum-last index sum h q =
      let b = byte_at v index in
      let same : b ≡ v / 2 ^ bits_of_index index = mod-eq_of_lt (omega (arith, q)) in
      let exact : sum + b * 2 ^ bits_of_index index ≡ v =
        ap (λ t. sum + t * 2 ^ bits_of_index index) same ∙ h in
      ground (arith, exact, same)

  last_part : (index : ℕ) → v < 2 ^ bits_of_index (index + 1) → v / 2 ^ bits_of_index index < 128
  last_part index h =
      (div-lt_iff_lt-mul (power_pos (bits_of_index index))).1 (omega (arith, next_power index, h))

  width_fits :
      (index : ℕ) → unsigned_max (index + 1) < v → ltb (8 * limit) (bits_of_index index + 7) ≡ false
  width_fits index big = elim (Bool-cases (ltb (8 * limit) (bits_of_index index + 7))) [
    | inl over ↦
        let le : 8 * limit ≤ bits_of_index (index + 1) = ground arith in
        let power : 2 ^ (8 * limit) ≤ 2 ^ bits_of_index (index + 1) =
          pow-le-pow_right (omega arith) le in
        absurd (omega (arith, small, big, power, power_pos (bits_of_index (index + 1))))
    | inr e ↦ e
  ]

  IsUpTo-next :
      (index sum b : ℕ)
      → IsUpTo v index sum
      → b - 128 ≡ v / 2 ^ bits_of_index index % 128
      → IsUpTo v (index + 1) (sum + (b - 128) * 2 ^ bits_of_index index)
  IsUpTo-next index sum b h group =
      let p = 2 ^ bits_of_index index in
      let q = v / p in
      ap (λ t. sum + t * p + v / 2 ^ bits_of_index (index + 1) * 2 ^ bits_of_index (index + 1))
        group
      ∙ ap (λ t. sum + q % 128 * p + t * 2 ^ bits_of_index (index + 1)) (next_part v index)
      ∙ ap (λ t. sum + q % 128 * p + q / 128 * t) (next_power index)
      ∙ omega (arith, scaled q p)
      ∙ h

  read_sum-other :
      (index sum : ℕ) (bytes : List ℕ)
      → IsUpTo v index sum
      → unsigned_max (index + 1) < v
      → ((sum' : ℕ)
          → IsUpTo v (index + 1) sum'
          → read_sum limit (bits_of_index (index + 1)) sum' bytes ≡ (some v, rest))
      → read_sum limit (bits_of_index index) sum (bit_or (byte_at v index) 0x80 ∷ bytes)
        ≡ (some v, rest)
  unfolding read_sum
  read_sum-other index sum bytes h big ih =
      let p = 2 ^ bits_of_index index in
      let q = v / p in
      let b = bit_or (byte_at v index) 0x80 in
      let group : b - 128 ≡ q % 128 = omega (arith, marked_group (q % 256) (omega arith)) in
      let high : ltb b 128 ≡ false = ground (arith, marked_group (q % 256) (omega arith)) in
      let accepted : ltb (8 * limit) (bits_of_index index + 7) ≡ false = width_fits index big in
      let next : IsUpTo v (index + 1) (sum + (b - 128) * p) = IsUpTo-next index sum b h group in
      let width : bits_of_index index + 7 ≡ bits_of_index (index + 1) = omega arith in
      let more = read_sum limit (bits_of_index index + 7) (sum + (b - 128) * p) bytes in
      let s = sum + b * p in
      let last : Option ℕ × List ℕ =
        if ltb s (2 ^ (8 * limit)) then (some s, bytes) else (none, bytes) in
      ap
        (λ t.
          if t
          then last
          else (if ltb (8 * limit) (bits_of_index index + 7) then (none, bytes) else more))
        high
      ∙ ap (λ t. if t then (none, bytes) else more) accepted
      ∙ ap (λ w. read_sum limit w (sum + (b - 128) * p) bytes) width
      ∙ ih (sum + (b - 128) * p) next

  read_sum-positive_chunks :
      (rungs index sum : ℕ)
      → IsUpTo v index sum
      → v < 2 ^ bits_of_index (index + rungs + 1)
      → read_sum limit
          (bits_of_index index)
          sum
          (positive_chunks v index (suc (extra rungs index v)) ++ rest)
        ≡ (some v, rest)
  unfolding positive_chunks extra
  read_sum-positive_chunks zero index sum h top =
      let e : index + 0 + 1 ≡ index + 1 = omega arith in
      let top' : v < 2 ^ bits_of_index (index + 1) = subst (λ t. v < 2 ^ bits_of_index t) e top in
      read_sum-last index sum h (last_part index top')
  read_sum-positive_chunks (suc rungs) index sum h top =
      elim (Bool-cases (leb v (unsigned_max (index + 1)))) [
        | inl e ↦
            let below : v < 2 ^ bits_of_index (index + 1) =
              ground (arith, e, power_pos (bits_of_index (index + 1))) in
            rw e (read_sum-last index sum h (last_part index below))
        | inr e ↦
            let same : index + suc rungs + 1 ≡ index + 1 + rungs + 1 = omega arith in
            let top' = subst (λ t. v < 2 ^ bits_of_index t) same top in
            rw e (
              read_sum-other index sum _ h (ground (arith, e))
                (λ sum' h'. read_sum-positive_chunks rungs (index + 1) sum' h' top'))
      ]

pub read_sum-chunks :
    (limit rungs v : ℕ) (rest : List ℕ)
    → v < 2 ^ (8 * limit)
    → v < 2 ^ bits_of_index (rungs + 1)
    → read_sum limit 0 0 (positive_chunks v 0 (unsigned_length rungs 1 v) ++ rest) ≡ (some v, rest)
read_sum-chunks limit rungs v rest small top =
    let len : unsigned_length rungs 1 v ≡ suc (extra rungs 0 v) =
      unsigned_length-extra rungs 0 v ∙ omega arith in
    let e : rungs + 1 ≡ 0 + rungs + 1 = omega arith in
    ap (λ n. read_sum limit 0 0 (positive_chunks v 0 n ++ rest)) len
    ∙ read_sum-positive_chunks limit v small rest rungs 0 0 (omega arith)
        (subst (λ t. v < 2 ^ bits_of_index t) e top)

bit_or_byte : (b : ℕ) → b < 256 → bit_or b 0x80 < 256
bit_or_byte b h = omega (arith, marked_group b h)

pub positive_chunks-IsByte : (v index n : ℕ) → All IsByte (positive_chunks v index n)
unfolding positive_chunks
positive_chunks-IsByte v index zero = tt
positive_chunks-IsByte v index (suc zero) = (omega arith, tt)
positive_chunks-IsByte v index (suc (suc n)) =
    (bit_or_byte (byte_at v index) (omega arith), positive_chunks-IsByte v (index + 1) (suc n))
