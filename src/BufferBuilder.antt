-- ===== src/BufferBuilder.antt =====
-- libnetq/BufferBuilder.h and libnetq/BufferBuilder.c: integers of 16, 24, 32 and 64 bits read from
-- a buffer and written to one, in the host's byte order or a fixed one, and a builder that writes
-- them one behind another.
-- A buffer is the list of the bytes that may be read or written. A read or write that would go past
-- it has no defined behaviour in C: it is `none`. Every call returns the number of bytes it has used.
pub mod Get
pub mod Put
pub mod Builder
pub mod Layout
pub mod RoundTrip
pub mod Bits24
pub mod Stream
mod Tests
use libnetq.Prelude.{
  ℕ, zero, suc, ◌+◌, ◌-◌, List, [], ◌∷◌, ◌++◌, Option, none, some, length, take, drop, leb,
  if◌then◌else◌,
}
use libnetq.Endian.{ByteOrder, little, big, store, load}

-- `memcpy` to the start of a buffer.
abbrev pub overwrite : List ℕ → List ℕ → List ℕ
overwrite [] mem = mem
overwrite (b ∷ bs) [] = []
overwrite (b ∷ bs) (x ∷ mem) = b ∷ overwrite bs mem

-- `memcpy` of `n` bytes into a variable, and what the code makes of them.
abbrev pub read : {A : Type 0} → ℕ → (List ℕ → A) → List ℕ → Option (ℕ × A)
read n decode buffer = if leb n (length buffer) then some (n, decode (take n buffer)) else none

-- `memcpy` of the bytes to the buffer.
abbrev pub write : List ℕ → List ℕ → Option (ℕ × List ℕ)
write bytes buffer =
    if leb (length bytes) (length buffer) then some (length bytes, overwrite bytes buffer) else none

-- `memcpy(value, buffer, 3)` and `memcpy(((uint8_t*)value) + 1, buffer, 3)`: one byte of what the
-- 32-bit variable held before stays.
abbrev pub into_front : ByteOrder → ℕ → List ℕ → ℕ
into_front h old bytes = load h (bytes ++ drop 3 (store h 4 old))

abbrev pub into_back : ByteOrder → ℕ → List ℕ → ℕ
into_back h old bytes = load h (take 1 (store h 4 old) ++ bytes)

-- The three bytes that hold the low 24 bits on the host.
abbrev pub into_low24 : ByteOrder → ℕ → List ℕ → ℕ
into_low24 little = into_front little
into_low24 big = into_back big

abbrev pub low24 : ByteOrder → ℕ → List ℕ
low24 little w = take 3 (store little 4 w)
low24 big w = drop 1 (store big 4 w)
