-- ===== src/BufferBuilder/Builder.antt =====
-- `NQBufferBuilder`: its state and its writes.
-- The state keeps the whole memory that `NQBufferBuilder_init` was given, and the place that the
-- data pointer has reached in it.
use libnetq.Prelude.{
  ℕ, zero, suc, ◌+◌, ◌-◌, List, [], ◌∷◌, Bool, not, length, take, drop, leb, bit_and, bit_or, ◌==◌,
  if◌then◌else◌,
}
use libnetq.Prelude.Int.{ℤ, to_word}
use libnetq.Endian.{
  ByteOrder, store, host_to_le16, host_to_be16, host_to_le32, host_to_be32, host_to_le64,
  host_to_be64,
}
use libnetq.BufferBuilder.{overwrite, low24}

pub record BufferBuilder : Type 0 where
  pub flags : ℕ
  pub size : ℕ
  pub memory : List ℕ
  pub position : ℕ

-- `memcpy(builder->data, ...)`, the data pointer being `i` bytes into the memory.
abbrev pub overwrite_at : ℕ → List ℕ → List ℕ → List ℕ
overwrite_at zero bytes mem = overwrite bytes mem
overwrite_at (suc i) bytes [] = []
overwrite_at (suc i) bytes (x ∷ mem) = x ∷ overwrite_at i bytes mem

unfoldable pub init : List ℕ → ℕ → BufferBuilder
init memory size = record { flags = 0; size = size; memory = memory; position = 0 }

unfoldable pub is_overflow : BufferBuilder → Bool
is_overflow b = not (bit_and b.flags 1 == 0)

unfoldable pub current_position : BufferBuilder → ℕ
current_position b = b.position

copy : ℕ → ℕ → List ℕ → BufferBuilder → BufferBuilder
copy flags n bytes b = record {
  flags = flags;
  size = b.size - n;
  memory = overwrite_at b.position (take n bytes) b.memory;
  position = b.position + n;
}

-- The returned number is always that of the bytes asked for.
unfoldable pub write : List ℕ → BufferBuilder → ℕ × BufferBuilder
unfolding copy
write bytes b =
    if leb (length bytes) b.size
    then (length bytes, copy b.flags (length bytes) bytes b)
    else if b.size == 0
    then (length bytes, record b { flags = bit_or b.flags 1 })
    else (length bytes, copy (bit_or b.flags 1) b.size bytes b)

unfoldable pub write_int8 : ℤ → BufferBuilder → ℕ × BufferBuilder
write_int8 v = write (to_word 8 v ∷ [])

unfoldable pub write_uint8 : ℕ → BufferBuilder → ℕ × BufferBuilder
write_uint8 v = write (v ∷ [])

unfoldable pub write_int16 : ByteOrder → ℤ → BufferBuilder → ℕ × BufferBuilder
write_int16 h v = write (store h 2 (to_word 16 v))

unfoldable pub write_int16_le : ByteOrder → ℤ → BufferBuilder → ℕ × BufferBuilder
write_int16_le h v = write (store h 2 (host_to_le16 h (to_word 16 v)))

unfoldable pub write_int16_be : ByteOrder → ℤ → BufferBuilder → ℕ × BufferBuilder
write_int16_be h v = write (store h 2 (host_to_be16 h (to_word 16 v)))

unfoldable pub write_uint16 : ByteOrder → ℕ → BufferBuilder → ℕ × BufferBuilder
write_uint16 h v = write (store h 2 v)

unfoldable pub write_uint16_le : ByteOrder → ℕ → BufferBuilder → ℕ × BufferBuilder
write_uint16_le h v = write (store h 2 (host_to_le16 h v))

unfoldable pub write_uint16_be : ByteOrder → ℕ → BufferBuilder → ℕ × BufferBuilder
write_uint16_be h v = write (store h 2 (host_to_be16 h v))

unfoldable pub write_int24 : ByteOrder → ℤ → BufferBuilder → ℕ × BufferBuilder
write_int24 h v = write (low24 h (to_word 32 v))

unfoldable pub write_int24_le : ByteOrder → ℤ → BufferBuilder → ℕ × BufferBuilder
write_int24_le h v = write (take 3 (store h 4 (host_to_le32 h (to_word 32 v))))

unfoldable pub write_int24_be : ByteOrder → ℤ → BufferBuilder → ℕ × BufferBuilder
write_int24_be h v = write (drop 1 (store h 4 (host_to_be32 h (to_word 32 v))))

unfoldable pub write_uint24 : ByteOrder → ℕ → BufferBuilder → ℕ × BufferBuilder
write_uint24 h v = write (low24 h v)

unfoldable pub write_uint24_le : ByteOrder → ℕ → BufferBuilder → ℕ × BufferBuilder
write_uint24_le h v = write (take 3 (store h 4 (host_to_le32 h v)))

unfoldable pub write_uint24_be : ByteOrder → ℕ → BufferBuilder → ℕ × BufferBuilder
write_uint24_be h v = write (drop 1 (store h 4 (host_to_be32 h v)))

unfoldable pub write_int32 : ByteOrder → ℤ → BufferBuilder → ℕ × BufferBuilder
write_int32 h v = write (store h 4 (to_word 32 v))

unfoldable pub write_int32_le : ByteOrder → ℤ → BufferBuilder → ℕ × BufferBuilder
write_int32_le h v = write (store h 4 (host_to_le32 h (to_word 32 v)))

unfoldable pub write_int32_be : ByteOrder → ℤ → BufferBuilder → ℕ × BufferBuilder
write_int32_be h v = write (store h 4 (host_to_be32 h (to_word 32 v)))

unfoldable pub write_uint32 : ByteOrder → ℕ → BufferBuilder → ℕ × BufferBuilder
write_uint32 h v = write (store h 4 v)

unfoldable pub write_uint32_le : ByteOrder → ℕ → BufferBuilder → ℕ × BufferBuilder
write_uint32_le h v = write (store h 4 (host_to_le32 h v))

unfoldable pub write_uint32_be : ByteOrder → ℕ → BufferBuilder → ℕ × BufferBuilder
write_uint32_be h v = write (store h 4 (host_to_be32 h v))

unfoldable pub write_int64 : ByteOrder → ℤ → BufferBuilder → ℕ × BufferBuilder
write_int64 h v = write (store h 8 (to_word 64 v))

unfoldable pub write_int64_le : ByteOrder → ℤ → BufferBuilder → ℕ × BufferBuilder
write_int64_le h v = write (store h 8 (host_to_le64 h (to_word 64 v)))

unfoldable pub write_int64_be : ByteOrder → ℤ → BufferBuilder → ℕ × BufferBuilder
write_int64_be h v = write (store h 8 (host_to_be64 h (to_word 64 v)))

unfoldable pub write_uint64 : ByteOrder → ℕ → BufferBuilder → ℕ × BufferBuilder
write_uint64 h v = write (store h 8 v)

unfoldable pub write_uint64_le : ByteOrder → ℕ → BufferBuilder → ℕ × BufferBuilder
write_uint64_le h v = write (store h 8 (host_to_le64 h v))

unfoldable pub write_uint64_be : ByteOrder → ℕ → BufferBuilder → ℕ × BufferBuilder
write_uint64_be h v = write (store h 8 (host_to_be64 h v))
