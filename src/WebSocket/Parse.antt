-- ===== src/WebSocket/Parse.antt =====
-- What the parser accepts, on any bytes: it reads only what is there.
use libnetq.Prelude.{
  ℕ, ◌+◌, ◌^◌, ◌≤◌, ◌<◌, ◌≡◌, ◌⊎◌, List, [], ◌∷◌, Bool, true, not, some, arith, length, drop,
  bit_and, ◌==◌, length-drop, Option-cases, inl, inr,
}
use libnetq.Endian.{ByteOrder}
use libnetq.BufferBuilder.Get.{get_uint16_be, get_uint64_be}
use libnetq.WebSocket.{
  WebSocketHeader, WebSocketFrame, read_size, read_mask, header_parse, accepts, frame_parse,
  opcode_text, opcode_binary, opcode_close,
}
use libnetq.WebSocket.Mask.{payload_unmask_twice}

read_size_bounds :
    (h : ByteOrder) (size7 : ℕ) (rest : List ℕ) (len n : ℕ)
    → read_size h size7 rest ≡ some (len, n)
    → (n ≤ length rest) × (n ≤ 8)
unfolding read_size get_uint16_be get_uint64_be
read_size_bounds h size7 rest len n e = ground arith

read_mask_bounds :
    (masked : Bool) (rest key : List ℕ) (m : ℕ)
    → read_mask masked rest ≡ some (key, m)
    → (m ≤ length rest) × (m ≤ 4)
unfolding read_mask
read_mask_bounds masked rest key m e = ground arith

-- A header that is accepted takes 2 to 14 bytes, all of them among those given.
header_parse_bounds :
    (h : ByteOrder) (bytes : List ℕ) (size : ℕ) (header : WebSocketHeader)
    → header_parse h bytes ≡ some (size, header)
    → (2 ≤ size) × (size ≤ 14) × (size ≤ length bytes)
unfolding header_parse
header_parse_bounds h [] size header e = cc
header_parse_bounds h (f1 ∷ []) size header e = cc
header_parse_bounds h (f1 ∷ f2 ∷ rest) size header e =
    elim (Option-cases (read_size h (bit_and f2 0x7f) rest)) [
      | inl x ↦ cc (rw x at e)
      | inr ((len, n), x) ↦
          elim (Option-cases (read_mask (not (bit_and f2 0x80 == 0)) (drop n rest))) [
            | inl y ↦ cc (rw (x, y) at e)
            | inr ((key, m), y) ↦ ground (
              arith,
              rw (x, y) at e,
              read_size_bounds h (bit_and f2 0x7f) rest len n x,
              read_mask_bounds (not (bit_and f2 0x80 == 0)) (drop n rest) key m y,
              length-drop n rest,
            )
          ]
    ]

accepts_opcode :
    (header : WebSocketHeader)
    → accepts header ≡ true
    → (header.opcode ≡ opcode_text)
      ⊎ (header.opcode ≡ opcode_binary)
      ⊎ ((header.opcode ≡ opcode_close) × (header.payload_size ≡ 2))
unfolding accepts
accepts_opcode header e = ground arith

-- A frame that is accepted is the whole message: the reported payload has the reported size, which
-- with a header of at most 14 bytes makes up the bytes given, although the sum of the two sizes is
-- taken modulo 2 ^ 64; its opcode is that of text, binary data or a close, and a close has two bytes.
pub frame_parse_bounds :
    (h : ByteOrder) (bytes : List ℕ) (frame : WebSocketFrame)
    → length bytes < 2 ^ 64
    → frame_parse h bytes ≡ some frame
    → (frame.payload_size ≡ length frame.payload)
      × (frame.payload_size + 2 ≤ length bytes)
      × (length bytes ≤ frame.payload_size + 14)
      × ((frame.opcode ≡ opcode_text)
          ⊎ (frame.opcode ≡ opcode_binary)
          ⊎ ((frame.opcode ≡ opcode_close) × (frame.payload_size ≡ 2)))
unfolding frame_parse
frame_parse_bounds h bytes frame p e = elim (Option-cases (header_parse h bytes)) [
  | inl x ↦ cc (rw x at e)
  | inr ((size, header), x) ↦ ground (
    arith,
    rw x at e,
    header_parse_bounds h bytes size header x,
    length-drop size bytes,
    payload_unmask_twice header.mask (drop size bytes),
    accepts_opcode header,
  )
]
