-- ===== src/Leb128/Unsigned.antt =====
-- Unsigned values: what is encoded is decoded again, from the shortest form.
use libnetq.Prelude.{
  ℕ, zero, suc, ◌+◌, ◌*◌, ◌/◌, ◌%◌, ◌^◌, ◌≤◌, ◌<◌, ◌≡◌, refl, sym, ap, ◌∙◌, List, ◌++◌, some, arith,
  bit_and, bit_or, leb, if◌then◌else◌, Bool-cases, inl, inr, all_below, table,
}
use libnetq.Prelude.Bits.{bit_or_below}
use libnetq.Leb128.{bits_of_index, unsigned_max, byte_at}
use libnetq.Leb128.Encode.{positive_chunks, unsigned_length}
use libnetq.Leb128.Decode.{done, read_positive, unsigned_end, decode_unsigned}
use native.Mathlib.Nat.{
  zero-add, div-mul-le_self, div-add-mod, div-div-eq-div-mul, one-le-pow, mod-eq_of_lt,
  mul-lt-mul_of_pos_right, mul-le-mul_right, div-lt_iff_lt-mul,
}
use mathlib.Core.Path.{subst}
use native.Mathlib.Numerals.{towards_suc}

-- The number of chunks behind the first, from `index` on.
unfoldable pub extra : ℕ → ℕ → ℕ → ℕ
extra zero index v = 0
extra (suc rungs) index v =
    if leb v (unsigned_max (index + 1)) then 0 else suc (extra rungs (index + 1) v)

pub unsigned_length-extra :
    (rungs index v : ℕ) → unsigned_length rungs (index + 1) v ≡ index + suc (extra rungs index v)
unfolding unsigned_length extra
unsigned_length-extra zero index v = omega arith
unsigned_length-extra (suc rungs) index v =
    ground (arith, unsigned_length-extra rungs (index + 1) v)

pub next_power : (index : ℕ) → 2 ^ bits_of_index (index + 1) ≡ 128 * 2 ^ bits_of_index index
next_power index =
    let e : 7 * (index + 1) ≡ 7 * index + 7 = omega arith in
    ap (λ (k : ℕ). 2 ^ k) e ∙ simp towards_suc (omega arith)

pub next_part :
    (v index : ℕ) → v / 2 ^ bits_of_index (index + 1) ≡ v / 2 ^ bits_of_index index / 128
next_part v index =
    ap (λ (p : ℕ). v / p) (next_power index ∙ omega arith)
    ∙ sym (div-div-eq-div-mul v (2 ^ bits_of_index index) 128)

-- A chunk that others follow.
pub marked : (b : ℕ) → b < 256 → bit_and (bit_or b 0x80) 0x80 ≡ 128
unfolding all_below
marked = table 256 (λ b. bit_and (bit_or b 0x80) 0x80) (λ b. 128) refl

pub low_seven : (b : ℕ) → b < 256 → bit_and (bit_or b 0x80) 0x7f ≡ b % 128
unfolding all_below
low_seven = table 256 (λ b. bit_and (bit_or b 0x80) 0x7f) (λ b. b % 128) refl

pub scaled : (q p : ℕ) → q / 128 * (128 * p) + q % 128 * p ≡ q * p
scaled q p = omega (arith, ap (λ (t : ℕ). t * p) (div-add-mod q 128))

part_lt : (q p : ℕ) → 1 ≤ p → q % 128 * p < 128 * p
part_lt q p h = mul-lt-mul_of_pos_right (omega arith) h

pub power_pos : (k : ℕ) → 1 ≤ 2 ^ k
power_pos k = one-le-pow k 2 (omega arith)

-- The value read so far, joined with a lower chunk.
join :
    (v index : ℕ)
    → bit_or
        (v / 2 ^ bits_of_index (index + 1) * 2 ^ bits_of_index (index + 1))
        (v / 2 ^ bits_of_index index % 128 * 2 ^ bits_of_index index)
      ≡ v / 2 ^ bits_of_index index * 2 ^ bits_of_index index
join v index =
    let q = v / 2 ^ bits_of_index index in
    let p = 2 ^ bits_of_index index in
    let small : q % 128 * p < 2 ^ bits_of_index (index + 1) =
      subst (λ (t : ℕ). q % 128 * p < t) (sym (next_power index))
        (part_lt q p (power_pos (bits_of_index index))) in
    bit_or_below (bits_of_index (index + 1)) (v / 2 ^ bits_of_index (index + 1)) (q % 128 * p) small
    ∙ ap (λ (t : ℕ). t * 2 ^ bits_of_index (index + 1) + q % 128 * p) (next_part v index)
    ∙ ap (λ (t : ℕ). q / 128 * t + q % 128 * p) (next_power index)
    ∙ scaled q p

pub read_positive-chunks :
    (width more index v : ℕ) (rest : List ℕ)
    → v < 2 ^ width
    → v / 2 ^ bits_of_index (index + more) < 256
    → read_positive width index (suc more) (positive_chunks v index (suc more) ++ rest)
      ≡ v / 2 ^ bits_of_index index * 2 ^ bits_of_index index
unfolding read_positive positive_chunks
read_positive-chunks width zero index v rest p q =
    let k = 2 ^ bits_of_index index in
    let h : index + 0 ≡ index = omega arith in
    let q' : v / k < 256 = subst (λ (t : ℕ). v / 2 ^ bits_of_index t < 256) h q in
    let low = div-mul-le_self v k in
    ap (λ (t : ℕ). t * k % 2 ^ width) (mod-eq_of_lt q') ∙ mod-eq_of_lt (omega arith)
read_positive-chunks width (suc more) index v rest p q =
    let k = 2 ^ bits_of_index index in
    let h : index + suc more ≡ index + 1 + more = omega arith in
    let q' = subst (λ (t : ℕ). v / 2 ^ bits_of_index t < 256) h q in
    let low = div-mul-le_self v k in
    let chunk : bit_and (bit_or (byte_at v index) 0x80) 0x7f ≡ v / k % 128 =
      low_seven (byte_at v index) (omega arith) ∙ omega arith in
    let smaller : v / k % 128 * k ≤ v / k * k = mul-le-mul_right k (omega arith) in
    ap (λ (t : ℕ). bit_or t (bit_and (bit_or (byte_at v index) 0x80) 0x7f * k % 2 ^ width))
      (read_positive-chunks width more (index + 1) v rest p q')
    ∙ ap
        (λ (t : ℕ).
          bit_or (v / 2 ^ bits_of_index (index + 1) * 2 ^ bits_of_index (index + 1))
            (t * k % 2 ^ width))
        chunk
    ∙ ap (bit_or (v / 2 ^ bits_of_index (index + 1) * 2 ^ bits_of_index (index + 1)))
        (mod-eq_of_lt (omega arith))
    ∙ join v index

pub unmarked : (b : ℕ) → b < 128 → bit_and b 0x80 ≡ 0
unfolding all_below
unmarked = table 128 (λ b. bit_and b 0x80) (λ b. 0) refl

unsigned_end-chunks :
    (more rungs mask index v : ℕ) (rest : List ℕ)
    → more ≤ rungs
    → v / 2 ^ bits_of_index (index + more) < 128
    → (more ≡ rungs → bit_and (byte_at v (index + more)) mask ≡ 0)
    → unsigned_end rungs mask (positive_chunks v index (suc more) ++ rest) ≡ some (suc more)
unfolding unsigned_end positive_chunks
unsigned_end-chunks zero zero mask index v rest h q f =
    let e : index + 0 ≡ index = omega arith in
    ground (arith, subst (λ (t : ℕ). bit_and (byte_at v t) mask ≡ 0) e (f refl))
unsigned_end-chunks zero (suc rungs) mask index v rest h q f =
    let e : index + 0 ≡ index = omega arith in
    let q' : v / 2 ^ bits_of_index index < 128 =
      subst (λ (t : ℕ). v / 2 ^ bits_of_index t < 128) e q in
    ground (arith, unmarked (byte_at v index) (omega arith))
unsigned_end-chunks (suc more) zero mask index v rest h q f = absurd (omega arith)
unsigned_end-chunks (suc more) (suc rungs) mask index v rest h q f =
    let e : index + suc more ≡ index + 1 + more = omega arith in
    let ih =
      unsigned_end-chunks more rungs mask (index + 1) v rest (omega arith)
        (subst (λ (t : ℕ). v / 2 ^ bits_of_index t < 128) e q)
        (λ g. subst (λ (t : ℕ). bit_and (byte_at v t) mask ≡ 0) e (f (ap suc g))) in
    let top = marked (byte_at v index) (omega arith) in ground (arith, ih, top)

part_below : (v index : ℕ) → v ≤ unsigned_max (index + 1) → v / 2 ^ bits_of_index index < 128
part_below v index h =
    (div-lt_iff_lt-mul (power_pos (bits_of_index index))).1
      (omega (arith, next_power index, power_pos (bits_of_index index)))

extra-final :
    (rungs index v : ℕ)
    → v / 2 ^ bits_of_index (index + rungs) < 128
    → (extra rungs index v ≤ rungs) × (v / 2 ^ bits_of_index (index + extra rungs index v) < 128)
unfolding extra
extra-final zero index v q = (omega arith, q)
extra-final (suc rungs) index v q = elim (Bool-cases (leb v (unsigned_max (index + 1)))) [
  | inl e ↦
      let same : index ≡ index + 0 = omega arith in
      let final = part_below v index (ground (arith, e)) in
      rw e (omega arith, subst (λ (t : ℕ). v / 2 ^ bits_of_index t < 128) same final)
  | inr e ↦
      let same : index + suc rungs ≡ index + 1 + rungs = omega arith in
      let next : index + 1 + extra rungs (index + 1) v ≡ index + suc (extra rungs (index + 1) v) =
        omega arith in
      let (h, final) =
        extra-final rungs (index + 1) v (subst (λ (t : ℕ). v / 2 ^ bits_of_index t < 128) same q) in
      rw e (omega (arith, h), subst (λ (t : ℕ). v / 2 ^ bits_of_index t < 128) next final)
]

-- The bytes that an unsigned integer of `width` bits takes, in front of any others, are found and
-- read as the integer.
pub decode_unsigned-chunks :
    (width rungs mask v : ℕ) (rest : List ℕ)
    → v < 2 ^ width
    → v / 2 ^ bits_of_index rungs < 128
    → bit_and (byte_at v rungs) mask ≡ 0
    → decode_unsigned width rungs mask (positive_chunks v 0 (unsigned_length rungs 1 v) ++ rest)
      ≡ done (unsigned_length rungs 1 v) v
unfolding decode_unsigned
decode_unsigned-chunks width rungs mask v rest p q m =
    let n = extra rungs 0 v in
    let (h, final) =
      extra-final rungs 0 v
        (subst (λ (t : ℕ). v / 2 ^ bits_of_index t < 128) (sym (zero-add rungs)) q) in
    let e : unsigned_length rungs 1 v ≡ suc n = unsigned_length-extra rungs 0 v ∙ omega arith in
    let end =
      unsigned_end-chunks n rungs mask 0 v rest h final
        (λ g. subst (λ (t : ℕ). bit_and (byte_at v t) mask ≡ 0) (sym (zero-add n ∙ g)) m) in
    let value : read_positive width 0 (suc n) (positive_chunks v 0 (suc n) ++ rest) ≡ v =
      read_positive-chunks width n 0 v rest p (ground (arith, final)) ∙ omega arith in
    subst (λ (k : ℕ). decode_unsigned width rungs mask (positive_chunks v 0 k ++ rest) ≡ done k v)
      (sym e) (rw (decode_unsigned, end) (ap (done (suc n)) value))
