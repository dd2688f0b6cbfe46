-- ===== src/WebSocket/Tests.antt =====
-- Runs of the parser and of a buffer, and the theorems at concrete inputs.
use libnetq.Prelude.{
  ℕ, ◌+◌, ◌*◌, ◌^◌, ◌≤◌, ◌≡◌, ◌⊎◌, refl, List, [], ◌∷◌, ◌++◌, true, Option, none, some, arith,
  length, take, min, replicate, length-replicate, leb, if◌then◌else◌, ◌-◌,
}
use libnetq.Endian.{little, big}
use libnetq.WebSocket.{
  WebSocketHeader, WebSocketFrame, header_parse, read_size, read_mask, frame_parse, accepts,
}
use libnetq.WebSocket.{payload_unmask, opcode_text, opcode_binary, opcode_close}
use libnetq.WebSocket.Buffer.{WebSocketBuffer, header_max, buffer_init, complete, wire, write}
use libnetq.WebSocket.Parse.{frame_parse_bounds}
use libnetq.WebSocket.Write.{IsValid, contents, write_lem}
use libnetq.WebSocket.RoundTrip.{frame_parse-complete}

abbrev key : List ℕ
key = 1 ∷ 2 ∷ 3 ∷ 4 ∷ []

-- "Hi" from a client, in one masked frame.
abbrev hi_bytes : List ℕ
hi_bytes = 0x81 ∷ 0x82 ∷ 1 ∷ 2 ∷ 3 ∷ 4 ∷ 0x49 ∷ 0x6B ∷ []

abbrev hi : List ℕ
hi = 0x48 ∷ 0x69 ∷ []

abbrev hi_header : WebSocketHeader
hi_header = record {
  payload_size = 2;
  mask = key;
  rsv = 0;
  opcode = 1;
  fin = true;
  has_mask = true;
}

abbrev hi_frame : WebSocketFrame
hi_frame = record {
  opcode = 1;
  fin = true;
  has_mask = true;
  mask = key;
  payload_size = 2;
  payload = 0x48 ∷ 0x69 ∷ [];
}

hi_header_parse : header_parse little hi_bytes ≡ some (6, hi_header)
unfolding header_parse read_size read_mask
hi_header_parse = refl

hi_frame_parse : frame_parse little hi_bytes ≡ some hi_frame
unfolding frame_parse header_parse read_size read_mask accepts payload_unmask
hi_frame_parse = refl

frame_parse_bounds_example :
    (2 ≡ length hi)
    × (2 + 2 ≤ length hi_bytes)
    × (length hi_bytes ≤ 2 + 14)
    × ((1 ≡ opcode_text) ⊎ (1 ≡ opcode_binary) ⊎ ((1 ≡ opcode_close) × (hi_frame.payload_size ≡ 2)))
frame_parse_bounds_example =
    frame_parse_bounds little hi_bytes hi_frame (omega arith) hi_frame_parse

-- An allocator that has no block of more than 64 bytes.
abbrev small_malloc : ℕ → Option (List ℕ)
small_malloc n = if leb n 64 then some (replicate n 0) else none

length-small_malloc : (n : ℕ) (block : List ℕ) → small_malloc n ≡ some block → length block ≡ n
length-small_malloc n block e = ground (arith, length-replicate {A = ℕ} n 0)

write_lem_example :
    let taken = take (min (2 ^ 31 - 1) 2) hi in
    let (r, out) = write small_malloc hi buffer_init in
    ((small_malloc (header_max + (buffer_init.payload_len + length taken) * 2) ≡ none)
      × (r ≡ none)
      × (out ≡ buffer_init))
    ⊎ ((r ≡ some (length taken)) × (contents out ≡ contents buffer_init ++ taken) × IsValid out)
unfolding buffer_init
write_lem_example =
    write_lem small_malloc length-small_malloc hi buffer_init (omega arith) (omega arith)

abbrev hello_block : List ℕ
hello_block = replicate 14 0 ++ (0x48 ∷ 0x69 ∷ 0 ∷ [])

abbrev hello : WebSocketBuffer
hello = record { block = some hello_block; payload_len = 2; payload_capacity = 3; header_size = 0 }

frame_parse-complete_example :
    frame_parse little (wire (complete big 1 true (some key) hello)) ≡ some hi_frame
frame_parse-complete_example =
    frame_parse-complete big little 1 true (some key) hello_block 2 3 0 (omega arith) (omega arith)
      (omega arith) (omega arith)
