-- ===== src/Leb128/Length.antt =====
-- The length of the unsigned form.
use libnetq.Prelude.{
  ℕ, zero, suc, ◌+◌, ◌^◌, ◌≤◌, ◌<◌, ◌≡◌, refl, arith, leb, Bool-cases, ◌⊎◌, inl, inr,
}
use mathlib.Core.Path.{subst}
use libnetq.Leb128.{bits_of_index, unsigned_max}
use libnetq.Leb128.Encode.{
  emit, unsigned_length, encode_unsigned, encode_uint8, encode_uint16, encode_uint32, encode_uint64,
}
use libnetq.Leb128.UnsignedRoundTrip.{Width, width8, width16, width32, width64, bits, needed}
use native.Mathlib.Nat.{one-le-pow}

-- The number `n + 1` is the least that is not refused by the bound of its groups.
pub record Least (v n : ℕ) : Type 0 where
  enough : v < 2 ^ bits_of_index (suc n)
  least : (n ≡ 0) ⊎ (2 ^ bits_of_index n ≤ v)

unsigned_length-Least :
    (rungs index v : ℕ)
    → v < 2 ^ bits_of_index (index + suc rungs)
    → (index ≡ 0) ⊎ (2 ^ bits_of_index index ≤ v)
    → (n : ℕ) × (unsigned_length rungs (suc index) v ≡ suc n) × (n ≤ index + rungs) × Least v n
unfolding unsigned_length
unsigned_length-Least zero index v p q =
    let e : index + 1 ≡ suc index = omega arith in
    (
      index,
      refl,
      omega arith,
      record { enough = subst (λ (t : ℕ). v < 2 ^ bits_of_index t) e p; least = q },
    )
unsigned_length-Least (suc rungs) index v p q =
    elim (Bool-cases (leb v (unsigned_max (suc index)))) [
      | inl e ↦
          let fits : v ≤ unsigned_max (suc index) = ground (arith, e) in
          rw e (
            index,
            refl,
            omega arith,
            record {
              enough = omega (arith, one-le-pow (bits_of_index (suc index)) 2, fits);
              least = q;
            },
          )
      | inr e ↦
          let over : unsigned_max (suc index) < v = ground (arith, e) in
          let more : index + suc (suc rungs) ≡ suc index + suc rungs = omega arith in
          let next : suc (suc index) ≡ suc index + 1 = omega arith in
          let (n, f, h, l) =
            unsigned_length-Least rungs (suc index) v
              (subst (λ (t : ℕ). v < 2 ^ bits_of_index t) more p) (inr (omega (arith, over))) in
          rw e (n, subst (λ (t : ℕ). unsigned_length rungs t v ≡ suc n) next f, omega (arith, h), l)
    ]

-- The greatest number of bytes of a width.
abbrev pub max_length : Width → ℕ
max_length width8 = 2
max_length width16 = 3
max_length width32 = 5
max_length width64 = 10

-- The encoders take the shortest form, for every width and every value of the width: the number of
-- bytes that is reported is n + 1 for an n such that the value is below 2 ^ (7 * (n + 1)) and, unless
-- n is 0, not below 2 ^ (7 * n); it is at most 2, 3, 5 and 10 bytes for the widths 8, 16, 32 and 64.
encode_uint-Least :
    (w : Width) (v : ℕ)
    → v < 2 ^ bits w
    → (n : ℕ) × (needed w v ≡ suc n) × (suc n ≤ max_length w) × Least v n
unfolding encode_unsigned emit encode_uint8 encode_uint16 encode_uint32 encode_uint64
encode_uint-Least width8 v p =
    let (n, e, h, l) = unsigned_length-Least 1 0 v (omega arith) (inl refl) in
    (n, e, omega (arith, h), l)
encode_uint-Least width16 v p =
    let (n, e, h, l) = unsigned_length-Least 2 0 v (omega arith) (inl refl) in
    (n, e, omega (arith, h), l)
encode_uint-Least width32 v p =
    let (n, e, h, l) = unsigned_length-Least 4 0 v (omega arith) (inl refl) in
    (n, e, omega (arith, h), l)
encode_uint-Least width64 v p =
    let (n, e, h, l) = unsigned_length-Least 9 0 v (omega arith) (inl refl) in
    (n, e, omega (arith, h), l)
