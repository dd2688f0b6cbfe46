-- ===== src/ByteBuffer.antt =====
-- libnetq/ByteBuffer.c, libnetq/ByteBuffer.h: bytes in an allocated block that grows.
-- `malloc` is a parameter: it answers with a new block of any content, or with `none`. The result of
-- an operation is `none` where C reads or writes past a block or through a null pointer, or where an
-- assertion fails. A null pointer of which no byte is used is a block of no bytes.
pub mod Memory
pub mod Holds
pub mod Room
pub mod Shift
pub mod Insert
pub mod Remove
pub mod Run
pub mod Refused
mod Tests
use libnetq.Prelude.{
  ℕ, ◌+◌, ◌-◌, ◌/◌, ◌%◌, ◌^◌, max, List, [], ◌∷◌, Option, none, some, Bool, true, false, not, ltb,
  leb, ◌==◌, if◌then◌else◌, length, take, drop, replicate,
}
use libnetq.BufferBuilder.Builder.{overwrite_at}

pub record ByteBuffer : Type 0 where
  pub data_block : Option (List ℕ)
  pub size : ℕ
  pub capacity : ℕ

abbrev pub bind {ℓ κ} : {A : Type ℓ} {B : Type κ} → Option A → (A → Option B) → Option B
bind none f = none
bind (some a) f = f a

abbrev pub block_of : ByteBuffer → List ℕ
block_of b = elim b.data_block [ none ↦ [] | some block ↦ block ]

-- `memcpy` and `memmove` from a block and to a block, and `memset` to 0.
unfoldable pub read_at : ℕ → ℕ → List ℕ → Option (List ℕ)
read_at i n block = if leb (i + n) (length block) then some (take n (drop i block)) else none

unfoldable pub write_at : ℕ → List ℕ → List ℕ → Option (List ℕ)
write_at i bytes block =
    if leb (i + length bytes) (length block) then some (overwrite_at i bytes block) else none

abbrev pub init : ByteBuffer
init = record { data_block = none; size = 0; capacity = 0 }

abbrev pub clear : ByteBuffer → ByteBuffer
clear b = record { data_block = none; size = 0; capacity = 0 }

abbrev pub finalize : ByteBuffer → ByteBuffer
finalize b = clear b

-- The sum is one of 32 bits, the maximum one of 64.
unfoldable pub next_capacity : ByteBuffer → ℕ → ℕ
next_capacity b new_min_capacity = max new_min_capacity ((b.capacity + b.capacity / 4 + 1) % 2 ^ 32)

abbrev pub swap : ByteBuffer × ByteBuffer → ByteBuffer × ByteBuffer
swap (this, other) = (other, this)

unfoldable pub remove_at : ℕ → ℕ → ByteBuffer → Option ByteBuffer
remove_at position size b =
    if leb (position + size) b.size
    then bind (read_at (position + size) (b.size - (position + size)) (block_of b)) (λ rest.
      bind (write_at position rest (block_of b))
        (λ block. some (record b { data_block = some block; size = b.size - size })))
    else none

-- The bytes so far are in front of the new block.
unfoldable pub moved : ℕ → ByteBuffer → Option (List ℕ) → Option (Bool × ByteBuffer)
moved new_capacity b none = some (false, b)
moved new_capacity b (some new_data) = bind (read_at 0 b.size (block_of b)) (λ bytes.
    bind (write_at 0 bytes new_data)
      (λ block. some (true, record b { data_block = some block; capacity = new_capacity })))

-- What is done with the buffer once there is room.
abbrev pub with_room :
    (ByteBuffer → Option (Bool × ByteBuffer)) → Bool × ByteBuffer → Option (Bool × ByteBuffer)
with_room k (true, b) = k b
with_room k (false, b) = some (false, b)

-- `memcpy` of the bytes to their place, which all paths of an insertion come to.
unfoldable pub filled : ℕ → List ℕ → ℕ → ByteBuffer → Option (Bool × ByteBuffer)
filled position bytes new_size b =
    bind (write_at position bytes (block_of b))
      (λ block. some (true, record b { data_block = some block; size = new_size % 2 ^ 32 }))

-- The bytes from a place on, moved up by the length of what comes there.
unfoldable pub shifted : ℕ → ℕ → ByteBuffer → ByteBuffer → Option ByteBuffer
shifted position n b b' = bind (read_at position (b.size - position) (block_of b)) (λ rest.
    bind (write_at (position + n) rest (block_of b'))
      (λ block. some (record b' { data_block = some block })))

module _ (malloc : ℕ → Option (List ℕ)) where
  unfoldable pub reserve_capacity : ℕ → ByteBuffer → Option (Bool × ByteBuffer)
  reserve_capacity new_capacity b =
      if ltb (2 ^ 32 - 1) new_capacity
      then some (false, b)
      else if leb new_capacity b.capacity
      then some (true, b)
      else moved new_capacity b (malloc new_capacity)

  unfoldable pub expand_capacity : ℕ → ByteBuffer → Option (Bool × ByteBuffer)
  expand_capacity new_min_capacity b = reserve_capacity (next_capacity b new_min_capacity) b

  -- Room for a size, if there is none yet.
  unfoldable pub make_room : ℕ → ByteBuffer → Option (Bool × ByteBuffer)
  make_room size b = if ltb b.capacity size then expand_capacity size b else some (true, b)

  unfoldable pub resize : ℕ → ByteBuffer → Option (Bool × ByteBuffer)
  resize size b =
      bind (make_room size b) (with_room (λ b'. some (true, record b' { size = size % 2 ^ 32 })))

  unfoldable pub append : List ℕ → ByteBuffer → Option (Bool × ByteBuffer)
  append bytes b =
      let new_size = (b.size + length bytes) % 2 ^ 64 in
      if length bytes == 0
      then some (true, b)
      else if ltb new_size b.size
      then some (false, b)
      else bind (make_room new_size b) (with_room (λ b'. filled b'.size bytes new_size b'))

  -- The block that an insertion gets, which is used with no test, after the first bytes so far are
  -- copied to it.
  unfoldable pub replaced : ℕ → ℕ → ByteBuffer → Option ByteBuffer
  replaced new_size n b =
      let capacity = next_capacity b new_size in
      bind (malloc capacity) (λ new_data. bind (read_at 0 n (block_of b)) (λ bytes.
        bind (write_at 0 bytes new_data)
          (λ block. some (record b { data_block = some block; capacity = capacity % 2 ^ 32 }))))

  -- Behind the end: the gap is filled with zeros.
  unfoldable pub insert_behind : ℕ → List ℕ → ByteBuffer → Option (Bool × ByteBuffer)
  insert_behind position bytes b =
      let new_size = (position + length bytes) % 2 ^ 64 in
      if ltb new_size b.size
      then some (false, b)
      else bind (if ltb b.capacity new_size then replaced new_size b.size b else some b) (λ b'.
        bind (write_at b.size (replicate (position - b.size) 0) (block_of b'))
          (λ block. filled position bytes new_size (record b' { data_block = some block })))

  unfoldable pub insert_inside : ℕ → List ℕ → ByteBuffer → Option (Bool × ByteBuffer)
  insert_inside position bytes b =
      let new_size = (b.size + length bytes) % 2 ^ 64 in
      if ltb new_size b.size
      then some (false, b)
      else bind
          (bind (if leb new_size b.capacity then some b else replaced new_size position b)
            (λ b'. if position == b.size then some b' else shifted position (length bytes) b b'))
          (filled position bytes new_size)

  unfoldable pub insert : ℕ → List ℕ → ByteBuffer → Option (Bool × ByteBuffer)
  insert position bytes b =
      if length bytes == 0
      then some (true, b)
      else if ltb b.size position
      then insert_behind position bytes b
      else insert_inside position bytes b
