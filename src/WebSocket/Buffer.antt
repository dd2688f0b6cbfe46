-- ===== src/WebSocket/Buffer.antt =====
-- `NQWebSocketBuffer`: a message under construction. Its payload stands in an allocated block
-- behind room for the longest header.
-- The block, from `payloadPtr - NQ_WEBSOCKET_HEADER_MAX` on, is a list of bytes; a null pointer is
-- `none`. `malloc` is a parameter: it answers with a new block, of any content, or with `none`.
-- `NQWebSocketBuffer_printf` and `NQWebSocketBuffer_vprintf`, which lean on `vsnprintf`, are left out.
use libnetq.Prelude.{
  ℕ, ◌+◌, ◌-◌, ◌*◌, ◌%◌, ◌^◌, List, [], ◌∷◌, ◌++◌, Bool, true, false, Option, none, some, length,
  take, drop, ltb, leb, ◌==◌, bit_and, bit_or, if◌then◌else◌, min, not, replicate,
}
use libnetq.Endian.{ByteOrder}
use libnetq.BufferBuilder.Put.{put_uint16_be, put_uint64_be}
use libnetq.BufferBuilder.Builder.{overwrite_at}
use libnetq.WebSocket.{payload_unmask}

-- NQ_WEBSOCKET_HEADER_MAX
abbrev pub header_max : ℕ
header_max = 14

-- NQ_WEBSOCKET_BUFFER_MAX
abbrev pub buffer_max : ℕ
buffer_max = 2 ^ 64 - 1 - 14

pub record WebSocketBuffer : Type 0 where
  pub block : Option (List ℕ)
  pub payload_len : ℕ
  pub payload_capacity : ℕ
  pub header_size : ℕ

unfoldable pub buffer_init : WebSocketBuffer
buffer_init = record { block = none; payload_len = 0; payload_capacity = 0; header_size = 0 }

-- The first `n` bytes of the payload in a block.
abbrev pub payload_of : ℕ → Option (List ℕ) → List ℕ
payload_of n none = []
payload_of n (some block) = take n (drop header_max block)

abbrev pub block_or_nil : Option (List ℕ) → List ℕ
block_or_nil none = []
block_or_nil (some block) = block

abbrev pub map_block : (List ℕ → List ℕ) → Option (List ℕ) → Option (List ℕ)
map_block f none = none
map_block f (some block) = some (f block)

-- `memcpy` behind the payload.
unfoldable pub append_payload : List ℕ → ℕ → WebSocketBuffer → Option ℕ × WebSocketBuffer
append_payload bytes new_len b = (
  some (length bytes),
  record b {
    block = map_block (overwrite_at (header_max + b.payload_len) bytes) b.block;
    payload_len = new_len;
  },
)

-- The length and the new payload length, cut where their sum wraps; `none` if nothing more fits.
unfoldable pub cut_length : ℕ → ℕ → Option (ℕ × ℕ)
cut_length len size =
    let new_len = (len + size) % 2 ^ 64 in
    if ltb new_len len
    then (if leb buffer_max len then none else some (buffer_max - len, buffer_max))
    else some (size, new_len)

unfoldable pub write_resized : List ℕ → ℕ → Bool × WebSocketBuffer → Option ℕ × WebSocketBuffer
write_resized bytes new_len (true, b) = append_payload bytes new_len b
write_resized bytes new_len (false, b) = (none, b)

module _ (malloc : ℕ → Option (List ℕ)) where
  -- A new block with the old payload copied into it.
  unfoldable pub move : ℕ → ℕ → WebSocketBuffer → Bool × WebSocketBuffer
  move alloc_size capacity b = elim (malloc alloc_size) [
    | none ↦ (false, b)
    | some new ↦ (
      true,
      record b {
        block = some (overwrite_at header_max (payload_of b.payload_len b.block) new);
        payload_capacity = capacity;
      },
    )
  ]

  unfoldable pub reserve : ℕ → WebSocketBuffer → Bool × WebSocketBuffer
  unfolding move
  reserve size b =
      if leb size b.payload_capacity
      then (true, b)
      else if ltb ((header_max + size) % 2 ^ 64) size
      then (false, b)
      else move ((header_max + size) % 2 ^ 64) size b

  -- The capacity that is asked for is doubled, unless that wraps to a number that is not larger.
  unfoldable pub payload_capacity_resize : ℕ → WebSocketBuffer → Bool × WebSocketBuffer
  unfolding move
  payload_capacity_resize new b =
      let doubled = new * 2 % 2 ^ 64 in
      let capacity = if ltb new doubled then doubled else new in
      move ((header_max + capacity) % 2 ^ 64) capacity b

  -- The result `none` stands for -1.
  unfoldable pub write : List ℕ → WebSocketBuffer → Option ℕ × WebSocketBuffer
  write bytes b = elim (cut_length b.payload_len (min (2 ^ 31 - 1) (length bytes))) [
    | none ↦ (none, b)
    | some (size, new_len) ↦
        if ltb b.payload_capacity new_len
        then write_resized (take size bytes) new_len (payload_capacity_resize new_len b)
        else append_payload (take size bytes) new_len b
  ]

-- The flag byte for the length, the `len2` and `len8` that are written, and the header's size.
unfoldable pub length_fields : ℕ → ℕ × ℕ × ℕ × ℕ
length_fields len =
    if leb len 125
    then (bit_and 0x7f len, 0, 0, 2)
    else if leb len 0xFFFF
    then (bit_and 0x7f 126, len % 2 ^ 16, 0, 4)
    else (bit_and 0x7f 127, 0, len, 10)

-- The bytes that a put leaves in a place of `n` bytes.
abbrev pub put_in : ℕ → (List ℕ → Option (ℕ × List ℕ)) → List ℕ
put_in n put = elim (put (replicate n 0)) [ none ↦ [] | some (_, bytes) ↦ bytes ]

-- The bytes behind the two flags.
unfoldable pub length_bytes : ByteOrder → ℕ → ℕ → List ℕ
length_bytes h len2 len8 =
    if not (len2 == 0)
    then put_in 2 (put_uint16_be h len2)
    else if not (len8 == 0)
    then put_in 8 (put_uint64_be h len8)
    else []

-- `mask` is `none` for a null pointer.
unfoldable pub header_bytes : ByteOrder → ℕ → Bool → Option (List ℕ) → ℕ → List ℕ
unfolding length_fields length_bytes
header_bytes h opcode fin mask len =
    let (flag2, len2, len8, size) = length_fields len in
    let flag1 = if fin then bit_or opcode 0x80 else opcode in
    elim mask [
      | none ↦ flag1 ∷ flag2 ∷ length_bytes h len2 len8
      | some key ↦ flag1 ∷ bit_or flag2 0x80 ∷ (length_bytes h len2 len8 ++ key)
    ]

unfoldable pub header_length : Option (List ℕ) → ℕ → ℕ
unfolding length_fields
header_length mask len =
    let (flag2, len2, len8, size) = length_fields len in
    elim mask [ none ↦ size | some key ↦ size + 4 ]

-- The payload is masked in place.
unfoldable pub mask_payload : Option (List ℕ) → ℕ → List ℕ → List ℕ
mask_payload none len block = block
mask_payload (some key) len block =
    overwrite_at header_max (payload_unmask key (take len (drop header_max block))) block

unfoldable pub complete : ByteOrder → ℕ → Bool → Option (List ℕ) → WebSocketBuffer → WebSocketBuffer
unfolding header_bytes header_length mask_payload
complete h opcode fin mask b = elim b.block [
  | none ↦ b
  | some block ↦
      let size = header_length mask b.payload_len in
      let header = header_bytes h opcode fin mask b.payload_len in
      record b {
        block =
            some (mask_payload mask b.payload_len (overwrite_at (header_max - size) header block));
        header_size = size;
      }
]

unfoldable pub reset : WebSocketBuffer → WebSocketBuffer
reset b = record b { header_size = 0; payload_len = 0 }

-- The bytes from `NQWebSocketBuffer_data` on, as many as `NQWebSocketBuffer_size` says.
unfoldable pub wire : WebSocketBuffer → List ℕ
wire b =
    if b.header_size == 0
    then []
    else take (b.payload_len + b.header_size)
        (drop (header_max - b.header_size) (block_or_nil b.block))
