-- ===== src/WebSocket.antt =====
-- libnetq/web/WebSocketFrame.h and libnetq/web/WebSocketFrame.c: the header and the frames of the
-- WebSocket protocol, read from the bytes of a message.
-- The data and its size are the list of the bytes that may be read. `h` is the host's byte order;
-- `size_t` has 64 bits.
pub mod Buffer
pub mod Mask
pub mod Parse
pub mod Write
pub mod Complete
pub mod RoundTrip
mod Tests
use libnetq.Prelude.{
  ℕ, ◌+◌, ◌*◌, ◌/◌, ◌%◌, ◌^◌, List, [], ◌∷◌, Bool, true, false, not, Option, none, some, length,
  take, drop, get_or, ltb, ◌==◌, bit_and, bit_or, bit_xor, if◌then◌else◌,
}
use libnetq.Endian.{ByteOrder}
use libnetq.BufferBuilder.Get.{get_uint16_be, get_uint64_be}

pub record WebSocketHeader : Type 0 where
  pub payload_size : ℕ
  pub mask : List ℕ
  pub rsv : ℕ
  pub opcode : ℕ
  pub fin : Bool
  pub has_mask : Bool

-- The opcodes of the enumeration; the others have no name in the model.
abbrev pub opcode_text : ℕ
opcode_text = 1

abbrev pub opcode_binary : ℕ
opcode_binary = 2

abbrev pub opcode_close : ℕ
opcode_close = 8

infixl 5 ◌>>=◌
abbrev ◌>>=◌ : {A B : Type 0} → Option A → (A → Option B) → Option B
none >>= f = none
some a >>= f = f a

-- The payload's size and the number of bytes that its extended form takes behind the two flags.
unfoldable pub read_size : ByteOrder → ℕ → List ℕ → Option (ℕ × ℕ)
read_size h size7 rest =
    if size7 == 126
    then (if ltb (length rest) 2 then none else get_uint16_be h rest >>= λ r. some (r.1, r.0))
    else if size7 == 127
    then (if ltb (length rest) 8 then none else get_uint64_be h rest >>= λ r. some (r.1, r.0))
    else some (size7, 0)

-- The masking key and the number of bytes that it takes.
unfoldable pub read_mask : Bool → List ℕ → Option (List ℕ × ℕ)
read_mask masked rest =
    if masked
    then (if ltb (length rest) 4 then none else some (take 4 rest, 4))
    else some (0 ∷ 0 ∷ 0 ∷ 0 ∷ [], 0)

-- `none` is the result 0: the header is not complete, and `*result` is not written.
unfoldable pub header_parse : ByteOrder → List ℕ → Option (ℕ × WebSocketHeader)
header_parse h [] = none
header_parse h (flags1 ∷ []) = none
header_parse h (flags1 ∷ flags2 ∷ rest) = do
  let masked = not (bit_and flags2 0x80 == 0)
  (payload_size, n) ← read_size h (bit_and flags2 0x7f) rest
  (mask, m) ← read_mask masked (drop n rest)
  some (
    2 + n + m,
    record {
      payload_size = payload_size;
      mask = mask;
      rsv = bit_and flags1 0x70 / 2 ^ 4;
      opcode = bit_and flags1 0x0f;
      fin = not (bit_and flags1 0x80 == 0);
      has_mask = masked;
    },
  )

-- `NQWebSocketUnmaskPayload`.
pub record UnmaskPayload : Type 0 where
  pub mask : List ℕ
  pub position : ℕ

unfoldable pub unmask_init : List ℕ → UnmaskPayload
unmask_init mask = record { mask = mask; position = 0 }

-- The position is a `uint8_t`.
unfoldable pub unmask : UnmaskPayload → List ℕ → UnmaskPayload × List ℕ
unmask u [] = (u, [])
unmask u (x ∷ xs) =
    let byte = bit_xor x (get_or u.mask (bit_and u.position 3) 0) in
    let (u', ys) = unmask (record u { position = (u.position + 1) % 256 }) xs in (u', byte ∷ ys)

unfoldable pub payload_unmask : List ℕ → List ℕ → List ℕ
unfolding unmask_init unmask
payload_unmask mask bytes = (unmask (unmask_init mask) bytes).1

pub record WebSocketFrame : Type 0 where
  pub opcode : ℕ
  pub fin : Bool
  pub has_mask : Bool
  pub mask : List ℕ
  pub payload_size : ℕ
  pub payload : List ℕ

-- The `switch` over the opcode: whether the frame is accepted.
unfoldable pub accepts : WebSocketHeader → Bool
accepts header =
    if header.opcode == opcode_text
    then true
    else if header.opcode == opcode_binary
    then true
    else if header.opcode == opcode_close
    then header.payload_size == 2
    else false

-- `none` is the result false. The payload is unmasked in place; `payload` is what stands there then.
unfoldable pub frame_parse : ByteOrder → List ℕ → Option WebSocketFrame
frame_parse h bytes = do
  (header_size, header) ← header_parse h bytes
  let payload = drop header_size bytes
  if not (header.rsv == 0)
      then none
      else if not (accepts header)
      then none
      else if not (header.payload_size == header.payload_size % 2 ^ 64)
      then none
      else if not ((header_size + header.payload_size) % 2 ^ 64 == length bytes)
      then none
      else some (record {
        opcode = header.opcode;
        fin = header.fin;
        has_mask = header.has_mask;
        mask = header.mask;
        payload_size = header.payload_size;
        payload = if header.has_mask then payload_unmask header.mask payload else payload;
      })
