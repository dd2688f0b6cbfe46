-- ===== src/Leb128/SignedRead.antt =====
-- The signed decoders on the chunks of a number, at any width.
use libnetq.Prelude.{
  ℕ, suc, ◌+◌, ◌-◌, ◌*◌, ◌/◌, ◌^◌, ◌≤◌, ◌<◌, ◌≡◌, sym, ap, ◌∙◌, List, ◌++◌, arith, bit_and, length,
  inl, inr, min,
}
use mathlib.Core.Path.{subst}
use libnetq.Prelude.Int.{ℤ, pos, negsuc, of_word, FitsBits}
use libnetq.Leb128.{bits_of_index, byte_at, signed_byte_at}
use libnetq.Leb128.Encode.{positive_chunks, negative_chunks, signed_length}
use libnetq.Leb128.Decode.{done, map_done, read_positive, read_negative, decode_ladder}
use libnetq.Leb128.Unsigned.{power_pos, next_power, read_positive-chunks}
use libnetq.Leb128.Negative.{Last, last_group, read_negative-chunks}
use libnetq.Leb128.Ladder.{Chain, positive_chunks-Chain, negative_chunks-Chain}
use libnetq.Leb128.Signed.{
  signed_length_lem, on_rung_positive, on_rung_negative, on_last_positive, on_last_negative,
}
use native.Mathlib.Nat.{mod-eq_of_lt, zero-add, pow-suc, pow-le-pow_right, mul-lt-mul_of_pos_right}
use native.Mathlib.Numerals.{towards_suc}

unfoldable pub signed_chunks : ℤ → ℕ → List ℕ
signed_chunks (pos n) length = positive_chunks n 0 length
signed_chunks (negsuc n) length = negative_chunks (negsuc n) 0 length

-- The number n of pos n and negsuc n.
abbrev pub magnitude : ℤ → ℕ
magnitude (pos n) = n
magnitude (negsuc n) = n

-- A word with the sign bit clear or set.
of_word-pos : (k n : ℕ) → n < 2 ^ k → of_word k n ≡ pos n
unfolding of_word
of_word-pos k n h = ground (arith, h)

of_word-negsuc : (k r m : ℕ) → m < 2 ^ k → r + (m + 1) ≡ 2 ^ suc k → of_word k r ≡ negsuc m
unfolding of_word
of_word-negsuc k r m h e = ground (arith, h, e, pow-suc 2 k)

rung_power : (more : ℕ) → 2 ^ (7 * more + 6) ≡ 64 * 2 ^ bits_of_index more
rung_power more = simp towards_suc (omega arith)

-- The last chunk on a rung, whose seven bits all stand in the word.
rung-Last :
    (width more m : ℕ)
    → bits_of_index (more + 1) ≤ width
    → m / 2 ^ bits_of_index more < 64
    → Last width more m
rung-Last width more m h l =
    let q = m / 2 ^ bits_of_index more in
    let size = 2 ^ bits_of_index more in
    let bit : min (bits_of_index (more + 1)) width - 1 ≡ 7 * more + 6 = omega (arith, h) in
    let top : 2 ^ (min (bits_of_index (more + 1)) width - 1) ≡ 64 * size =
      ap (λ (t : ℕ). 2 ^ t) bit ∙ rung_power more in
    let sum : 63 - q + (q + 1) ≡ 64 = omega (arith, l) in
    let sum' : 127 - q ≡ 64 + (63 - q) = omega (arith, l) in
    let room : 2 ^ bits_of_index (more + 1) ≤ 2 ^ width =
      pow-le-pow_right {n = 2} (omega arith) {i = bits_of_index (more + 1)} {j = width} h in
    let small : (127 - q) * size < 128 * size =
      mul-lt-mul_of_pos_right (omega arith) (power_pos (bits_of_index more)) in
    record {
      x = (63 - q) * size;
      below = omega (arith, ap (λ (t : ℕ). t * size) sum, top);
      shifted =
          mod-eq_of_lt (omega (arith, small, room, next_power more))
          ∙ omega (arith, ap (λ (t : ℕ). t * size) sum', top);
      narrow = omega (arith, l);
    }

-- A decoder of `k + 1` bits with `rungs` rungs, a number of whose greatest length has `j` bits in its
-- last chunk.
module _ (k rungs mask negative j : ℕ) (narrow : bits_of_index rungs ≤ suc k) (small : 2 ^ j ≤ 64)
    (set : 1 ≤ negative) (positive_mask : (q : ℕ) → q < 2 ^ j → bit_and q mask ≡ 0)
    (negative_mask : (q : ℕ) → q < 2 ^ j → bit_and (127 - q) mask ≡ negative)
    (in_last : (n : ℕ) → n < 2 ^ k → n / 2 ^ bits_of_index rungs < 2 ^ j)
    (last : (n : ℕ) → n < 2 ^ k → Last (suc k) rungs n) where
  -- What the bytes of a number are, and what is decoded from them.
  pub record Read (v : ℤ) (rest : List ℕ) : Type 0 where
    pub more : ℕ
    pub b : ℕ
    pub length_lem : signed_length rungs 1 (magnitude v) ≡ suc more
    pub more_le : more ≤ rungs
    pub unmarked : b < 128
    pub chain : Chain b more (signed_chunks v (suc more) ++ rest)
    pub decoded :
        map_done (of_word k) (
          decode_ladder
            (suc k)
            mask
            negative
            rungs
            1
            (signed_chunks v (suc more) ++ rest)
            (signed_chunks v (suc more) ++ rest))
        ≡ done (suc more) v

  pub read_lem : (v : ℤ) (rest : List ℕ) → FitsBits k v → Read v rest
  unfolding signed_chunks
  read_lem (pos n) rest h =
      let (more, f, l, g) = signed_length_lem rungs 0 n in
      let from : 0 + more ≡ more = zero-add more in
      let q = n / 2 ^ bits_of_index more in
      let bytes = positive_chunks n 0 (suc more) ++ rest in
      let chain : Chain (byte_at n more) more bytes =
        subst (λ (t : ℕ). Chain (byte_at n t) more bytes) from
          (positive_chunks-Chain n 0 more rest) in
      let value : q < 64 → read_positive (suc k) 0 (suc more) bytes ≡ n = λ t.
        read_positive-chunks (suc k) more 0 n rest (omega (arith, h, pow-suc 2 k))
          (subst (λ (i : ℕ). n / 2 ^ bits_of_index i < 256) (sym from) (omega (arith, t)))
        ∙ omega arith in
      let finish : q < 64
          → decode_ladder (suc k) mask negative rungs 1 bytes bytes
            ≡ done (suc more) (read_positive (suc k) 0 (suc more) bytes)
          → Read (pos n) rest =
        λ t e. record {
          more = more;
          b = byte_at n more;
          length_lem = f ∙ omega arith;
          more_le = l;
          unmarked = omega (arith, t);
          chain = chain;
          decoded =
              ap (map_done (of_word k)) e
              ∙ ap (done (suc more)) (ap (of_word k) (value t) ∙ of_word-pos k n h);
        } in
      elim g [
        | inl same ↦
            let t : q < 2 ^ j =
              subst (λ (i : ℕ). n / 2 ^ bits_of_index i < 2 ^ j) (sym same) (in_last n h) in
            finish (omega (arith, t, small)) (
              on_last_positive (suc k) mask negative rungs (byte_at n more) chain same set (
                ap (λ (i : ℕ). bit_and i mask) (mod-eq_of_lt (omega (arith, t, small)))
                ∙ positive_mask q t))
        | inr (less, under) ↦
            let t : q < 64 = subst (λ (i : ℕ). n / 2 ^ bits_of_index i < 64) from under in
            finish t (
              on_rung_positive (suc k) mask negative rungs (byte_at n more) chain less
                (omega (arith, t)))
      ]
  read_lem (negsuc n) rest h =
      let (more, f, l, g) = signed_length_lem rungs 0 n in
      let from : 0 + more ≡ more = zero-add more in
      let q = n / 2 ^ bits_of_index more in
      let bytes = negative_chunks (negsuc n) 0 (suc more) ++ rest in
      let b = bit_and (signed_byte_at (negsuc n) more) 0x7f in
      let chain : Chain b more bytes =
        subst (λ (t : ℕ). Chain (bit_and (signed_byte_at (negsuc n) t) 0x7f) more bytes) from
          (negative_chunks-Chain n 0 more rest) in
      let value : Last (suc k) more n
          → read_negative (suc k) 0 (suc more) bytes + (n + 1) ≡ 2 ^ suc k =
        λ t. omega (
          arith,
          read_negative-chunks (suc k) more 0 n rest (omega arith) (omega (arith, narrow, l))
              (subst (λ (i : ℕ). Last (suc k) i n) (sym from) t),
        ) in
      let finish : q < 64
          → Last (suc k) more n
          → decode_ladder (suc k) mask negative rungs 1 bytes bytes
            ≡ done (suc more) (read_negative (suc k) 0 (suc more) bytes)
          → Read (negsuc n) rest =
        λ t u e. record {
          more = more;
          b = b;
          length_lem = f ∙ omega arith;
          more_le = l;
          unmarked = omega (arith, last_group n more (omega (arith, t)));
          chain = chain;
          decoded =
              ap (map_done (of_word k)) e
              ∙ ap (done (suc more))
                  (of_word-negsuc k (read_negative (suc k) 0 (suc more) bytes) n h (value u));
        } in
      elim g [
        | inl same ↦
            let t : q < 2 ^ j =
              subst (λ (i : ℕ). n / 2 ^ bits_of_index i < 2 ^ j) (sym same) (in_last n h) in
            finish (omega (arith, t, small))
              (subst (λ (i : ℕ). Last (suc k) i n) (sym same) (last n h))
              (on_last_negative (suc k) mask negative rungs b chain same (
                ap (λ (i : ℕ). bit_and i mask) (last_group n more (omega (arith, t, small)))
                ∙ negative_mask q t))
        | inr (less, under) ↦
            let t : q < 64 = subst (λ (i : ℕ). n / 2 ^ bits_of_index i < 64) from under in
            finish t (rung-Last (suc k) more n (omega (arith, narrow, less)) t) (
              on_rung_negative (suc k) mask negative rungs b chain q less t
                (last_group n more (omega (arith, t))))
      ]
