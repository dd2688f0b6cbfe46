-- ===== src/BufferBuilder/Layout.antt =====
-- The bytes that the writes in a fixed byte order leave in the buffer: the base-256 digits of the
-- value, on every host.
use libnetq.Prelude.{ℕ, zero, suc, ◌+◌, ◌/◌, ◌%◌, ◌^◌, ◌≤◌, ◌≡◌, List, [], ◌∷◌, some, arith, length}
use libnetq.Endian.{ByteOrder, little, big, store, le_bytes}
use libnetq.Endian.Memory.{
  store-host_to_be16, store-host_to_le16, store-host_to_be32, store-host_to_le32,
  store-host_to_be64, store-host_to_le64,
}
use libnetq.BufferBuilder.{overwrite, write}
use libnetq.BufferBuilder.Put.{
  put_uint16_be, put_uint16_le, put_uint32_be, put_uint32_le, put_uint64_be, put_uint64_le,
}
use native.Mathlib.Nat.{div-div-eq-div-mul, div-one}

-- The `n` digits of `w` in base 256 from digit `i` on, lowest first.
abbrev pub low_first : ℕ → ℕ → ℕ → List ℕ
low_first i zero w = []
low_first i (suc n) w = w / 256 ^ i % 256 ∷ low_first (i + 1) n w

-- The `n` lowest digits of `w` in base 256, highest first.
abbrev pub high_first : ℕ → ℕ → List ℕ
high_first zero w = []
high_first (suc n) w = w / 256 ^ n % 256 ∷ high_first n w

pub store_big2 : (w : ℕ) → store big 2 w ≡ high_first 2 w
unfolding store le_bytes
store_big2 w = simp (div-one)

pub store_little2 : (w : ℕ) → store little 2 w ≡ low_first 0 2 w
unfolding store le_bytes
store_little2 w = simp (div-one)

pub store_big4 : (w : ℕ) → store big 4 w ≡ high_first 4 w
unfolding store le_bytes
store_big4 w = simp (div-div-eq-div-mul, div-one)

pub store_little4 : (w : ℕ) → store little 4 w ≡ low_first 0 4 w
unfolding store le_bytes
store_little4 w = simp (div-div-eq-div-mul, div-one)

pub store_big8 : (w : ℕ) → store big 8 w ≡ high_first 8 w
unfolding store le_bytes
store_big8 w = simp (div-div-eq-div-mul, div-one)

pub store_little8 : (w : ℕ) → store little 8 w ≡ low_first 0 8 w
unfolding store le_bytes
store_little8 w = simp (div-div-eq-div-mul, div-one)

pub write_whole :
    (bytes buffer : List ℕ)
    → length bytes ≤ length buffer
    → write bytes buffer ≡ some (length bytes, overwrite bytes buffer)
write_whole bytes buffer h = ground arith

-- `NQPutUint16BE`, `NQPutUint32BE` and `NQPutUint64BE` leave the digits of the value highest first
-- at the start of a buffer of 8 bytes or more, and `NQPutUint16LE`, `NQPutUint32LE` and
-- `NQPutUint64LE` lowest first, whatever the byte order of the host; the rest of the buffer stays,
-- and the number of the bytes is returned.
put_digits :
    (h : ByteOrder) (w : ℕ) (buffer : List ℕ)
    → 8 ≤ length buffer
    → (put_uint16_be h w buffer ≡ some (2, overwrite (high_first 2 w) buffer))
      × (put_uint16_le h w buffer ≡ some (2, overwrite (low_first 0 2 w) buffer))
      × (put_uint32_be h w buffer ≡ some (4, overwrite (high_first 4 w) buffer))
      × (put_uint32_le h w buffer ≡ some (4, overwrite (low_first 0 4 w) buffer))
      × (put_uint64_be h w buffer ≡ some (8, overwrite (high_first 8 w) buffer))
      × (put_uint64_le h w buffer ≡ some (8, overwrite (low_first 0 8 w) buffer))
unfolding put_uint16_be put_uint16_le put_uint32_be put_uint32_le put_uint64_be put_uint64_le
put_digits h w buffer p = (
  rw (store-host_to_be16, store_big2) (write_whole (high_first 2 w) buffer (omega arith)),
  rw (store-host_to_le16, store_little2) (write_whole (low_first 0 2 w) buffer (omega arith)),
  rw (store-host_to_be32, store_big4) (write_whole (high_first 4 w) buffer (omega arith)),
  rw (store-host_to_le32, store_little4) (write_whole (low_first 0 4 w) buffer (omega arith)),
  rw (store-host_to_be64, store_big8) (write_whole (high_first 8 w) buffer (omega arith)),
  rw (store-host_to_le64, store_little8) (write_whole (low_first 0 8 w) buffer (omega arith)),
)
