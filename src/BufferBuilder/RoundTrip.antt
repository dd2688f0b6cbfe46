-- ===== src/BufferBuilder/RoundTrip.antt =====
-- What is written is read back, also on a host of the other byte order.
use libnetq.Prelude.{
  ℕ, suc, ◌^◌, ◌≤◌, ◌<◌, ◌≡◌, refl, ap, ◌∙◌, List, [], ◌∷◌, Option, some, none, arith, length, take,
}
use libnetq.Prelude.Int.{ℤ, FitsBits, of_word, to_word-lt, of_word-to_word}
use libnetq.Endian.{
  ByteOrder, load, host_to_be16, host_to_le16, host_to_be32, host_to_le32, host_to_be64,
  host_to_le64,
}
use libnetq.Endian.Memory.{length-store}
use libnetq.Endian.Travel.{
  host_to_be16_travels, host_to_le16_travels, host_to_be32_travels, host_to_le32_travels,
  host_to_be64_travels, host_to_le64_travels,
}
use libnetq.BufferBuilder.{overwrite, read, write}
use libnetq.BufferBuilder.Get.{
  get_uint16_be, get_uint16_le, get_uint32_be, get_uint32_le, get_uint64_be, get_uint64_le,
  get_int16_be, get_int16_le, get_int32_be, get_int32_le, get_int64_be, get_int64_le,
}
use libnetq.BufferBuilder.Put.{
  put_uint16_be, put_uint16_le, put_uint32_be, put_uint32_le, put_uint64_be, put_uint64_le,
  put_int16_be, put_int16_le, put_int32_be, put_int32_le, put_int64_be, put_int64_le,
}

-- A read of the buffer that a write has left.
abbrev pub read_back :
    {A : Type 0} → Option (ℕ × List ℕ) → (List ℕ → Option (ℕ × A)) → Option (ℕ × A)
read_back none get = none
read_back (some (n, buffer)) get = get buffer

length-overwrite : (bytes buffer : List ℕ) → length (overwrite bytes buffer) ≡ length buffer
length-overwrite [] buffer = refl
length-overwrite (b ∷ bs) [] = refl
length-overwrite (b ∷ bs) (x ∷ buffer) = ap suc (length-overwrite bs buffer)

pub take-overwrite :
    (bytes buffer : List ℕ)
    → length bytes ≤ length buffer
    → take (length bytes) (overwrite bytes buffer) ≡ bytes
take-overwrite [] buffer p = refl
take-overwrite (b ∷ bs) [] p = absurd (omega arith)
take-overwrite (b ∷ bs) (x ∷ buffer) p = ap (λ r. b ∷ r) (take-overwrite bs buffer (omega arith))

pub read-write :
    {A : Type 0} (decode : List ℕ → A) (bytes buffer : List ℕ) (n : ℕ)
    → length bytes ≡ n
    → n ≤ length buffer
    → read_back (write bytes buffer) (read n decode) ≡ some (n, decode bytes)
read-write decode bytes buffer n e p =
    ground (arith, length-overwrite bytes buffer, take-overwrite bytes buffer)

-- What the writes of unsigned 16, 32 and 64-bit values leave in a buffer of 8 bytes or more, in
-- big and in little endian order, the reads of the same width and order return, with the number of
-- bytes, for every value of the width, also when the reader's host has the other byte order.
get-put_uint :
    (h h' : ByteOrder) (a b c : ℕ) (buffer : List ℕ)
    → a < 2 ^ 16
    → b < 2 ^ 32
    → c < 2 ^ 64
    → 8 ≤ length buffer
    → (read_back (put_uint16_be h a buffer) (get_uint16_be h') ≡ some (2, a))
      × (read_back (put_uint16_le h a buffer) (get_uint16_le h') ≡ some (2, a))
      × (read_back (put_uint32_be h b buffer) (get_uint32_be h') ≡ some (4, b))
      × (read_back (put_uint32_le h b buffer) (get_uint32_le h') ≡ some (4, b))
      × (read_back (put_uint64_be h c buffer) (get_uint64_be h') ≡ some (8, c))
      × (read_back (put_uint64_le h c buffer) (get_uint64_le h') ≡ some (8, c))
unfolding get_uint16_be get_uint16_le get_uint32_be get_uint32_le get_uint64_be get_uint64_le
    put_uint16_be put_uint16_le put_uint32_be put_uint32_le put_uint64_be put_uint64_le
get-put_uint h h' a b c buffer pa pb pc p = (
  read-write (λ x. host_to_be16 h' (load h' x)) _ buffer 2 (length-store h 2 _) (omega arith)
      ∙ ap (λ w. some (2, w)) (host_to_be16_travels h h' a pa),
  read-write (λ x. host_to_le16 h' (load h' x)) _ buffer 2 (length-store h 2 _) (omega arith)
      ∙ ap (λ w. some (2, w)) (host_to_le16_travels h h' a pa),
  read-write (λ x. host_to_be32 h' (load h' x)) _ buffer 4 (length-store h 4 _) (omega arith)
      ∙ ap (λ w. some (4, w)) (host_to_be32_travels h h' b pb),
  read-write (λ x. host_to_le32 h' (load h' x)) _ buffer 4 (length-store h 4 _) (omega arith)
      ∙ ap (λ w. some (4, w)) (host_to_le32_travels h h' b pb),
  read-write (λ x. host_to_be64 h' (load h' x)) _ buffer 8 (length-store h 8 _) (omega arith)
      ∙ ap (λ w. some (8, w)) (host_to_be64_travels h h' c pc),
  read-write (λ x. host_to_le64 h' (load h' x)) _ buffer 8 (length-store h 8 _) (omega arith)
      ∙ ap (λ w. some (8, w)) (host_to_le64_travels h h' c pc),
)

-- The same for signed values: every value of the width comes back with its sign.
get-put_int :
    (h h' : ByteOrder) (a b c : ℤ) (buffer : List ℕ)
    → FitsBits 15 a
    → FitsBits 31 b
    → FitsBits 63 c
    → 8 ≤ length buffer
    → (read_back (put_int16_be h a buffer) (get_int16_be h') ≡ some (2, a))
      × (read_back (put_int16_le h a buffer) (get_int16_le h') ≡ some (2, a))
      × (read_back (put_int32_be h b buffer) (get_int32_be h') ≡ some (4, b))
      × (read_back (put_int32_le h b buffer) (get_int32_le h') ≡ some (4, b))
      × (read_back (put_int64_be h c buffer) (get_int64_be h') ≡ some (8, c))
      × (read_back (put_int64_le h c buffer) (get_int64_le h') ≡ some (8, c))
unfolding get_int16_be get_int16_le get_int32_be get_int32_le get_int64_be get_int64_le put_int16_be
    put_int16_le put_int32_be put_int32_le put_int64_be put_int64_le
get-put_int h h' a b c buffer pa pb pc p = (
  read-write (λ x. of_word 15 (host_to_be16 h' (load h' x))) _ buffer 2 (length-store h 2 _)
        (omega arith)
      ∙ ap (λ w. some (2, of_word 15 w)) (host_to_be16_travels h h' _ (to_word-lt 16 a))
      ∙ ap (λ w. some (2, w)) (of_word-to_word 15 a pa),
  read-write (λ x. of_word 15 (host_to_le16 h' (load h' x))) _ buffer 2 (length-store h 2 _)
        (omega arith)
      ∙ ap (λ w. some (2, of_word 15 w)) (host_to_le16_travels h h' _ (to_word-lt 16 a))
      ∙ ap (λ w. some (2, w)) (of_word-to_word 15 a pa),
  read-write (λ x. of_word 31 (host_to_be32 h' (load h' x))) _ buffer 4 (length-store h 4 _)
        (omega arith)
      ∙ ap (λ w. some (4, of_word 31 w)) (host_to_be32_travels h h' _ (to_word-lt 32 b))
      ∙ ap (λ w. some (4, w)) (of_word-to_word 31 b pb),
  read-write (λ x. of_word 31 (host_to_le32 h' (load h' x))) _ buffer 4 (length-store h 4 _)
        (omega arith)
      ∙ ap (λ w. some (4, of_word 31 w)) (host_to_le32_travels h h' _ (to_word-lt 32 b))
      ∙ ap (λ w. some (4, w)) (of_word-to_word 31 b pb),
  read-write (λ x. of_word 63 (host_to_be64 h' (load h' x))) _ buffer 8 (length-store h 8 _)
        (omega arith)
      ∙ ap (λ w. some (8, of_word 63 w)) (host_to_be64_travels h h' _ (to_word-lt 64 c))
      ∙ ap (λ w. some (8, w)) (of_word-to_word 63 c pc),
  read-write (λ x. of_word 63 (host_to_le64 h' (load h' x))) _ buffer 8 (length-store h 8 _)
        (omega arith)
      ∙ ap (λ w. some (8, of_word 63 w)) (host_to_le64_travels h h' _ (to_word-lt 64 c))
      ∙ ap (λ w. some (8, w)) (of_word-to_word 63 c pc),
)
