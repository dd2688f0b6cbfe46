-- ===== src/BufferBuilder/Bits24.antt =====
-- The 24-bit values. The reads copy three bytes into a 32-bit variable of the caller, and keep one
-- byte of what the variable held before.
use libnetq.Prelude.{
  ℕ, ◌+◌, ◌-◌, ◌*◌, ◌/◌, ◌%◌, ◌^◌, ◌≤◌, ◌<◌, ◌≡◌, refl, ap, ◌∙◌, List, [], ◌∷◌, some, arith, length,
  take, drop,
}
use libnetq.Prelude.Bits.{bit_and_field, bit_or_above}
use libnetq.Prelude.Int.{ℤ, pos, negsuc, FitsBits, to_word, of_word}
use libnetq.Endian.{ByteOrder, little, big, store, load, le_word, host_to_be32, host_to_le32}
use libnetq.Endian.Memory.{
  store-host_to_be32, store-host_to_le32, host_to_be32-load, host_to_le32-load,
}
use libnetq.BufferBuilder.{into_front, into_back}
use libnetq.BufferBuilder.Get.{
  sign_extend24, get_uint24_be, get_uint24_le, get_int24_be, get_int24_le,
}
use libnetq.BufferBuilder.Put.{put_uint24_be, put_uint24_le, put_int24_be, put_int24_le}
use libnetq.BufferBuilder.Layout.{high_first, low_first, store_big4, store_little4}
use native.Mathlib.Nat.{div-one}
use libnetq.BufferBuilder.RoundTrip.{read_back, read-write}

-- The byte of the variable that ends up above the 24 bits.
abbrev pub stale_be : ByteOrder → ℕ → ℕ
stale_be little old = old % 256
stale_be big old = old / 2 ^ 24 % 256

abbrev pub stale_le : ByteOrder → ℕ → ℕ
stale_le little old = old / 2 ^ 24 % 256
stale_le big old = old % 256

kept_front : (h : ByteOrder) (old : ℕ) → take 1 (store h 4 old) ≡ stale_be h old ∷ []
kept_front little old = rw (store_little4 old, div-one) refl
kept_front big old = rw (store_big4 old) refl

kept_back : (h : ByteOrder) (old : ℕ) → drop 3 (store h 4 old) ≡ stale_le h old ∷ []
kept_back little old = rw (store_little4 old) refl
kept_back big old = rw (store_big4 old, div-one) refl

front_word :
    (h : ByteOrder) (old a b c : ℕ)
    → a < 256
    → b < 256
    → c < 256
    → host_to_be32 h (into_back h old (a ∷ b ∷ c ∷ []))
      ≡ stale_be h old * 2 ^ 24 + a * 2 ^ 16 + b * 2 ^ 8 + c
unfolding load le_word
front_word little old a b c pa pb pc =
    rw (kept_front little old)
      (host_to_be32-load little (old % 256 ∷ a ∷ b ∷ c ∷ []) refl (omega arith) ∙ omega arith)
front_word big old a b c pa pb pc =
    rw (kept_front big old)
      (host_to_be32-load big (old / 2 ^ 24 % 256 ∷ a ∷ b ∷ c ∷ []) refl (omega arith) ∙ omega arith)

back_word :
    (h : ByteOrder) (old a b c : ℕ)
    → a < 256
    → b < 256
    → c < 256
    → host_to_le32 h (into_front h old (a ∷ b ∷ c ∷ []))
      ≡ stale_le h old * 2 ^ 24 + c * 2 ^ 16 + b * 2 ^ 8 + a
unfolding load le_word
back_word little old a b c pa pb pc = rw (kept_back little old) (
    host_to_le32-load little (a ∷ b ∷ c ∷ old / 2 ^ 24 % 256 ∷ []) refl (omega arith) ∙ omega arith)
back_word big old a b c pa pb pc =
    rw (kept_back big old)
      (host_to_le32-load big (a ∷ b ∷ c ∷ old % 256 ∷ []) refl (omega arith) ∙ omega arith)

-- The bytes that the writes send.
front_bytes : (h : ByteOrder) (w : ℕ) → drop 1 (store h 4 (host_to_be32 h w)) ≡ high_first 3 w
front_bytes h w = rw (store-host_to_be32 h w, store_big4 w) refl

back_bytes : (h : ByteOrder) (w : ℕ) → take 3 (store h 4 (host_to_le32 h w)) ≡ low_first 0 3 w
back_bytes h w = rw (store-host_to_le32 h w, store_little4 w) refl

-- What the reads of a value that has been written return, at any value of the word.
read_be :
    (h h' : ByteOrder) (old w : ℕ)
    → host_to_be32 h' (into_back h' old (drop 1 (store h 4 (host_to_be32 h w))))
      ≡ stale_be h' old * 2 ^ 24 + w % 2 ^ 24
read_be h h' old w = rw (front_bytes h w) (
    front_word h' old (w / 2 ^ 16 % 256) (w / 2 ^ 8 % 256) (w / 1 % 256) (omega arith) (omega arith)
      (omega arith)
    ∙ omega arith)

read_le :
    (h h' : ByteOrder) (old w : ℕ)
    → host_to_le32 h' (into_front h' old (take 3 (store h 4 (host_to_le32 h w))))
      ≡ stale_le h' old * 2 ^ 24 + w % 2 ^ 24
read_le h h' old w = rw (back_bytes h w) (
    back_word h' old (w / 1 % 256) (w / 2 ^ 8 % 256) (w / 2 ^ 16 % 256) (omega arith) (omega arith)
      (omega arith)
    ∙ omega arith)

three_front : (h : ByteOrder) (w : ℕ) → length (drop 1 (store h 4 (host_to_be32 h w))) ≡ 3
three_front h w = rw (front_bytes h w) refl

three_back : (h : ByteOrder) (w : ℕ) → length (take 3 (store h 4 (host_to_le32 h w))) ≡ 3
three_back h w = rw (back_bytes h w) refl

-- An unsigned 24-bit value written in big or little endian order is read back with 3 bytes used, but
-- above its 24 bits the reads keep a byte of what the caller's variable held: the value is exact
-- only where that byte was 0.
get-put_uint24 :
    (h h' : ByteOrder) (old v : ℕ) (buffer : List ℕ)
    → v < 2 ^ 24
    → 3 ≤ length buffer
    → (read_back (put_uint24_be h v buffer) (get_uint24_be h' old)
        ≡ some (3, stale_be h' old * 2 ^ 24 + v))
      × (read_back (put_uint24_le h v buffer) (get_uint24_le h' old)
          ≡ some (3, stale_le h' old * 2 ^ 24 + v))
unfolding put_uint24_be put_uint24_le get_uint24_be get_uint24_le
get-put_uint24 h h' old v buffer pv p = (
  read-write (λ x. host_to_be32 h' (into_back h' old x)) _ buffer 3 (three_front h v) (omega arith)
      ∙ ap (λ w. some (3, w)) (read_be h h' old v ∙ omega arith),
  read-write (λ x. host_to_le32 h' (into_front h' old x)) _ buffer 3 (three_back h v) (omega arith)
      ∙ ap (λ w. some (3, w)) (read_le h h' old v ∙ omega arith),
)

sign_extend24_low : (w : ℕ) → w < 2 ^ 23 → sign_extend24 w ≡ w
unfolding sign_extend24
sign_extend24_low w p = ground (arith, bit_and_field 23 1 w)

sign_extend24_high : (w : ℕ) → w < 2 ^ 24 → 2 ^ 23 ≤ w → sign_extend24 w ≡ w + 255 * 2 ^ 24
unfolding sign_extend24
sign_extend24_high w p q = ground (arith, bit_and_field 23 1 w, bit_or_above 24 w 255 p)

-- A signed value of 24 bits comes out of its 24 low bits.
sign_extend24-to_word :
    (v : ℤ) → FitsBits 23 v → of_word 31 (sign_extend24 (to_word 32 v % 2 ^ 24)) ≡ v
unfolding of_word to_word
sign_extend24-to_word (pos n) p = ground (arith, sign_extend24_low n)
sign_extend24-to_word (negsuc n) p = ground (arith, sign_extend24_high (2 ^ 24 - 1 - n))

-- A signed 24-bit value written in big or little endian order is read back with its sign, if the
-- byte that the read keeps of the caller's variable was 0.
get-put_int24 :
    (h h' : ByteOrder) (old : ℕ) (v : ℤ) (buffer : List ℕ)
    → FitsBits 23 v
    → stale_be h' old ≡ 0
    → stale_le h' old ≡ 0
    → 3 ≤ length buffer
    → (read_back (put_int24_be h v buffer) (get_int24_be h' old) ≡ some (3, v))
      × (read_back (put_int24_le h v buffer) (get_int24_le h' old) ≡ some (3, v))
unfolding put_int24_be put_int24_le get_int24_be get_int24_le
get-put_int24 h h' old v buffer pv zb zl p = (
  read-write (λ x. of_word 31 (sign_extend24 (host_to_be32 h' (into_back h' old x)))) _ buffer 3
        (three_front h (to_word 32 v)) (omega arith)
      ∙ ap (λ w. some (3, of_word 31 (sign_extend24 w)))
          (read_be h h' old (to_word 32 v) ∙ omega arith)
      ∙ ap (λ w. some (3, w)) (sign_extend24-to_word v pv),
  read-write (λ x. of_word 31 (sign_extend24 (host_to_le32 h' (into_front h' old x)))) _ buffer 3
        (three_back h (to_word 32 v)) (omega arith)
      ∙ ap (λ w. some (3, of_word 31 (sign_extend24 w)))
          (read_le h h' old (to_word 32 v) ∙ omega arith)
      ∙ ap (λ w. some (3, w)) (sign_extend24-to_word v pv),
)
