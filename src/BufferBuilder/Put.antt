-- ===== src/BufferBuilder/Put.antt =====
-- The writes: `NQPutBytes` to `NQPutUint64BE`.
use libnetq.Prelude.{ℕ, List, [], ◌∷◌, Option, take, drop}
use libnetq.Prelude.Int.{ℤ, to_word}
use libnetq.Endian.{
  ByteOrder, store, host_to_le16, host_to_be16, host_to_le32, host_to_be32, host_to_le64,
  host_to_be64,
}
use libnetq.BufferBuilder.{write, low24}

unfoldable pub put_bytes : List ℕ → List ℕ → Option (ℕ × List ℕ)
put_bytes bytes = write bytes

unfoldable pub put_int8 : ℤ → List ℕ → Option (ℕ × List ℕ)
put_int8 v = write (to_word 8 v ∷ [])

unfoldable pub put_uint8 : ℕ → List ℕ → Option (ℕ × List ℕ)
put_uint8 v = write (v ∷ [])

unfoldable pub put_int16 : ByteOrder → ℤ → List ℕ → Option (ℕ × List ℕ)
put_int16 h v = write (store h 2 (to_word 16 v))

unfoldable pub put_int16_le : ByteOrder → ℤ → List ℕ → Option (ℕ × List ℕ)
put_int16_le h v = write (store h 2 (host_to_le16 h (to_word 16 v)))

unfoldable pub put_int16_be : ByteOrder → ℤ → List ℕ → Option (ℕ × List ℕ)
put_int16_be h v = write (store h 2 (host_to_be16 h (to_word 16 v)))

unfoldable pub put_uint16 : ByteOrder → ℕ → List ℕ → Option (ℕ × List ℕ)
put_uint16 h v = write (store h 2 v)

unfoldable pub put_uint16_le : ByteOrder → ℕ → List ℕ → Option (ℕ × List ℕ)
put_uint16_le h v = write (store h 2 (host_to_le16 h v))

unfoldable pub put_uint16_be : ByteOrder → ℕ → List ℕ → Option (ℕ × List ℕ)
put_uint16_be h v = write (store h 2 (host_to_be16 h v))

unfoldable pub put_int24 : ByteOrder → ℤ → List ℕ → Option (ℕ × List ℕ)
put_int24 h v = write (low24 h (to_word 32 v))

unfoldable pub put_int24_le : ByteOrder → ℤ → List ℕ → Option (ℕ × List ℕ)
put_int24_le h v = write (take 3 (store h 4 (host_to_le32 h (to_word 32 v))))

unfoldable pub put_int24_be : ByteOrder → ℤ → List ℕ → Option (ℕ × List ℕ)
put_int24_be h v = write (drop 1 (store h 4 (host_to_be32 h (to_word 32 v))))

unfoldable pub put_uint24 : ByteOrder → ℕ → List ℕ → Option (ℕ × List ℕ)
put_uint24 h v = write (low24 h v)

unfoldable pub put_uint24_le : ByteOrder → ℕ → List ℕ → Option (ℕ × List ℕ)
put_uint24_le h v = write (take 3 (store h 4 (host_to_le32 h v)))

unfoldable pub put_uint24_be : ByteOrder → ℕ → List ℕ → Option (ℕ × List ℕ)
put_uint24_be h v = write (drop 1 (store h 4 (host_to_be32 h v)))

unfoldable pub put_int32 : ByteOrder → ℤ → List ℕ → Option (ℕ × List ℕ)
put_int32 h v = write (store h 4 (to_word 32 v))

unfoldable pub put_int32_le : ByteOrder → ℤ → List ℕ → Option (ℕ × List ℕ)
put_int32_le h v = write (store h 4 (host_to_le32 h (to_word 32 v)))

unfoldable pub put_int32_be : ByteOrder → ℤ → List ℕ → Option (ℕ × List ℕ)
put_int32_be h v = write (store h 4 (host_to_be32 h (to_word 32 v)))

unfoldable pub put_uint32 : ByteOrder → ℕ → List ℕ → Option (ℕ × List ℕ)
put_uint32 h v = write (store h 4 v)

unfoldable pub put_uint32_le : ByteOrder → ℕ → List ℕ → Option (ℕ × List ℕ)
put_uint32_le h v = write (store h 4 (host_to_le32 h v))

unfoldable pub put_uint32_be : ByteOrder → ℕ → List ℕ → Option (ℕ × List ℕ)
put_uint32_be h v = write (store h 4 (host_to_be32 h v))

unfoldable pub put_int64 : ByteOrder → ℤ → List ℕ → Option (ℕ × List ℕ)
put_int64 h v = write (store h 8 (to_word 64 v))

unfoldable pub put_int64_le : ByteOrder → ℤ → List ℕ → Option (ℕ × List ℕ)
put_int64_le h v = write (store h 8 (host_to_le64 h (to_word 64 v)))

unfoldable pub put_int64_be : ByteOrder → ℤ → List ℕ → Option (ℕ × List ℕ)
put_int64_be h v = write (store h 8 (host_to_be64 h (to_word 64 v)))

unfoldable pub put_uint64 : ByteOrder → ℕ → List ℕ → Option (ℕ × List ℕ)
put_uint64 h v = write (store h 8 v)

unfoldable pub put_uint64_le : ByteOrder → ℕ → List ℕ → Option (ℕ × List ℕ)
put_uint64_le h v = write (store h 8 (host_to_le64 h v))

unfoldable pub put_uint64_be : ByteOrder → ℕ → List ℕ → Option (ℕ × List ℕ)
put_uint64_be h v = write (store h 8 (host_to_be64 h v))
