-- ===== src/WebSocket/Complete.antt =====
-- What `NQWebSocketBuffer_complete` makes of a buffer: the header, then the payload, masked if there
-- is a key.
use libnetq.Prelude.{
  ℕ, zero, suc, ◌+◌, ◌-◌, ◌≤◌, ◌≡◌, refl, sym, ap, ◌∙◌, List, [], ◌∷◌, ◌++◌, Bool, Option, none,
  some, arith, length, take, drop, length-append, take-append-drop, append_assoc, length-take,
  length-drop, ◌≢◌, ◌<◌, ◌%◌, ◌^◌, bit_and, bit_or, leb, if◌then◌else◌, all_below, table,
  append-nil,
}
use libnetq.Endian.{ByteOrder}
use libnetq.BufferBuilder.{overwrite}
use libnetq.BufferBuilder.Builder.{overwrite_at}
use libnetq.WebSocket.{payload_unmask}
use libnetq.WebSocket.Mask.{payload_unmask_twice}
use libnetq.WebSocket.Buffer.{
  header_max, payload_of, header_bytes, header_length, mask_payload, complete, wire, length_fields,
  length_bytes, put_in,
}
use libnetq.BufferBuilder.Put.{put_uint16_be, put_uint64_be}
use libnetq.BufferBuilder.Layout.{high_first, store_big2, store_big8}
use libnetq.Endian.Memory.{store-host_to_be16, store-host_to_be64}

overwrite_same : (bs cs ys : List ℕ) → length bs ≡ length cs → overwrite bs (cs ++ ys) ≡ bs ++ ys
overwrite_same [] [] ys e = refl
overwrite_same [] (c ∷ cs) ys e = absurd (omega arith)
overwrite_same (b ∷ bs) [] ys e = absurd (omega arith)
overwrite_same (b ∷ bs) (c ∷ cs) ys e = ap (λ r. b ∷ r) (overwrite_same bs cs ys (omega arith))

-- A write over the middle one of three parts.
pub overwrite_middle :
    (i : ℕ) (xs bs cs ys : List ℕ)
    → length xs ≡ i
    → length bs ≡ length cs
    → overwrite_at i bs (xs ++ (cs ++ ys)) ≡ xs ++ (bs ++ ys)
overwrite_middle zero [] bs cs ys e p = overwrite_same bs cs ys p
overwrite_middle zero (x ∷ xs) bs cs ys e p = absurd (omega arith)
overwrite_middle (suc i) [] bs cs ys e p = absurd (omega arith)
overwrite_middle (suc i) (x ∷ xs) bs cs ys e p =
    ap (λ r. x ∷ r) (overwrite_middle i xs bs cs ys (omega arith) p)

pub drop_prefix : (i : ℕ) (xs ys : List ℕ) → length xs ≡ i → drop i (xs ++ ys) ≡ ys
drop_prefix zero [] ys e = refl
drop_prefix zero (x ∷ xs) ys e = absurd (omega arith)
drop_prefix (suc i) [] ys e = absurd (omega arith)
drop_prefix (suc i) (x ∷ xs) ys e = drop_prefix i xs ys (omega arith)

pub take_prefix : (i : ℕ) (xs ys : List ℕ) → length xs ≡ i → take i (xs ++ ys) ≡ xs
take_prefix zero [] ys e = refl
take_prefix zero (x ∷ xs) ys e = absurd (omega arith)
take_prefix (suc i) [] ys e = absurd (omega arith)
take_prefix (suc i) (x ∷ xs) ys e = ap (λ r. x ∷ r) (take_prefix i xs ys (omega arith))

-- The payload as it is sent.
abbrev pub sent : Option (List ℕ) → List ℕ → List ℕ
sent none payload = payload
sent (some key) payload = payload_unmask key payload

pub length-sent :
    (mask : Option (List ℕ)) (payload : List ℕ) → length (sent mask payload) ≡ length payload
length-sent none payload = refl
length-sent (some key) payload = (payload_unmask_twice key payload).1

mask_payload_lem :
    (mask : Option (List ℕ)) (front payload rest : List ℕ)
    → length front ≡ header_max
    → mask_payload mask (length payload) (front ++ (payload ++ rest))
      ≡ front ++ (sent mask payload ++ rest)
unfolding mask_payload
mask_payload_lem none front payload rest e = refl
mask_payload_lem (some key) front payload rest e =
    rw
      (
        drop_prefix header_max front (payload ++ rest) e,
        take_prefix (length payload) payload rest refl,
      )
      (overwrite_middle header_max front (payload_unmask key payload) payload rest e
        ((payload_unmask_twice key payload).1))

drop-drop : (i j k : ℕ) (xs : List ℕ) → i + j ≡ k → drop j (drop i xs) ≡ drop k xs
drop-drop zero j k xs e = let e' : j ≡ k = omega arith in ap (λ (n : ℕ). drop n xs) e'
drop-drop (suc i) zero zero xs e = absurd (omega arith)
drop-drop (suc i) (suc j) zero xs e = absurd (omega arith)
drop-drop (suc i) zero (suc k) [] e = refl
drop-drop (suc i) (suc j) (suc k) [] e = refl
drop-drop (suc i) j (suc k) (x ∷ xs) e = drop-drop i j k xs (omega arith)

-- A block in four parts: what the header leaves free, the place of the header, the payload, the rest.
record Parts (size len : ℕ) (block : List ℕ) : Type 0 where
  free : List ℕ
  room : List ℕ
  payload : List ℕ
  rest : List ℕ
  block_lem : block ≡ free ++ (room ++ (payload ++ rest))
  free_lem : length free + size ≡ header_max
  room_lem : length room ≡ size
  payload_len : length payload ≡ len
  payload_lem : payload_of len (some block) ≡ payload

split_block :
    (size len : ℕ) (block : List ℕ)
    → size ≤ header_max
    → header_max + len ≤ length block
    → Parts size len block
split_block size len block p q = record {
  free = take (header_max - size) block;
  room = take size (drop (header_max - size) block);
  payload = take len behind;
  rest = drop len behind;
  block_lem = sym (
      ap (λ (r : List ℕ). take (header_max - size) block ++ r)
        (ap (λ (r : List ℕ). take size (drop (header_max - size) block) ++ r)
            (take-append-drop len behind)
          ∙ take-append-drop size (drop (header_max - size) block))
      ∙ take-append-drop (header_max - size) block);
  free_lem = omega (arith, length-take (header_max - size) block);
  room_lem = omega (
    arith,
    length-take size (drop (header_max - size) block),
    length-drop (header_max - size) block,
  );
  payload_len = omega (
    arith,
    length-take len behind,
    length-drop size (drop (header_max - size) block),
    length-drop (header_max - size) block,
  );
  payload_lem =
      ap (λ (r : List ℕ). take len r)
        (sym (drop-drop (header_max - size) size header_max block (omega arith)));
}
  where
    behind : List ℕ
    behind = drop size (drop (header_max - size) block)

wire-Parts :
    (mask : Option (List ℕ)) (size len : ℕ) (header block : List ℕ)
    → Parts size len block
    → length header ≡ size
    → take (len + size) (
        drop
          (header_max - size)
          (mask_payload mask len (overwrite_at (header_max - size) header block)))
      ≡ header ++ sent mask (payload_of len (some block))
wire-Parts mask size len header block ps e = rw (ps.payload_lem) (
    ap (λ (r : List ℕ). take (len + size) (drop (header_max - size) r)) masked
    ∙ ap (λ (r : List ℕ). take (len + size) r)
        (drop_prefix (header_max - size) ps.free _ (omega (arith, ps.free_lem)))
    ∙ ap (λ (r : List ℕ). take (len + size) r)
        (sym (append_assoc header (sent mask ps.payload) ps.rest))
    ∙ take_prefix (len + size) (header ++ sent mask ps.payload) ps.rest (
        omega (
          arith,
          length-append header (sent mask ps.payload),
          length-sent mask ps.payload,
          ps.payload_len,
        )))
  where
    front : List ℕ
    front = ps.free ++ header

    written :
        overwrite_at (header_max - size) header block
        ≡ ps.free ++ (header ++ (ps.payload ++ ps.rest))
    written =
        ap (λ (r : List ℕ). overwrite_at (header_max - size) header r) ps.block_lem
        ∙ overwrite_middle (header_max - size) ps.free header ps.room (ps.payload ++ ps.rest)
            (omega (arith, ps.free_lem)) (e ∙ sym ps.room_lem)

    masked :
        mask_payload mask len (overwrite_at (header_max - size) header block)
        ≡ ps.free ++ (header ++ (sent mask ps.payload ++ ps.rest))
    masked =
        ap (λ (r : List ℕ). mask_payload mask len r)
          (written ∙ sym (append_assoc ps.free header (ps.payload ++ ps.rest)))
        ∙ ap (λ (n : ℕ). mask_payload mask n (front ++ (ps.payload ++ ps.rest)))
            (sym ps.payload_len)
        ∙ mask_payload_lem mask front ps.payload ps.rest
            (omega (arith, length-append ps.free header, ps.free_lem))
        ∙ append_assoc ps.free header (sent mask ps.payload ++ ps.rest)

-- A key has four bytes.
abbrev pub IsKey : Option (List ℕ) → Type 0
IsKey none = Unit
IsKey (some key) = length key ≡ 4

-- The length in the second flag byte, and the bytes of an extended length, highest first.
abbrev pub size_flag : ℕ → ℕ
size_flag len = if leb len 125 then len else if leb len 0xFFFF then 126 else 127

abbrev pub size_bytes : ℕ → List ℕ
size_bytes len =
    if leb len 125 then [] else if leb len 0xFFFF then high_first 2 len else high_first 8 len

abbrev pub key_bytes : Option (List ℕ) → List ℕ
key_bytes none = []
key_bytes (some key) = key

abbrev pub flag1 : ℕ → Bool → ℕ
flag1 opcode fin = if fin then bit_or opcode 0x80 else opcode

abbrev pub flag2 : Option (List ℕ) → ℕ → ℕ
flag2 none len = size_flag len
flag2 (some key) len = bit_or (size_flag len) 0x80

put_in_two : (h : ByteOrder) (w : ℕ) → put_in 2 (put_uint16_be h w) ≡ high_first 2 w
unfolding put_uint16_be
put_in_two h w = rw (store-host_to_be16 h w, store_big2 w) refl

put_in_eight : (h : ByteOrder) (w : ℕ) → put_in 8 (put_uint64_be h w) ≡ high_first 8 w
unfolding put_uint64_be
put_in_eight h w = rw (store-host_to_be64 h w, store_big8 w) refl

seven_bits : (len : ℕ) → len < 128 → bit_and 0x7f len ≡ len
unfolding all_below
seven_bits = table 128 (λ len. bit_and 0x7f len) (λ len. len) refl

length_bytes_lem :
    (h : ByteOrder) (len : ℕ)
    → length_bytes h (length_fields len).1 (length_fields len).2 ≡ size_bytes len
unfolding length_bytes length_fields
length_bytes_lem h len = ground (arith, put_in_two h (len % 2 ^ 16), put_in_eight h len)

length_fields_lem :
    (len : ℕ)
    → ((length_fields len).0 ≡ size_flag len)
      × ((length_fields len).3 ≡ 2 + length (size_bytes len))
unfolding length_fields
length_fields_lem len = ground (arith, seven_bits len)

-- The header that is written: the flags, the length in the shortest of the three forms, highest byte
-- first on every host, and the key.
pub header_bytes_lem :
    (h : ByteOrder) (opcode : ℕ) (fin : Bool) (mask : Option (List ℕ)) (len : ℕ)
    → header_bytes h opcode fin mask len
      ≡ flag1 opcode fin ∷ flag2 mask len ∷ (size_bytes len ++ key_bytes mask)
unfolding header_bytes
header_bytes_lem h opcode fin none len =
    rw (length_bytes_lem h len, (length_fields_lem len).0, append-nil) refl
header_bytes_lem h opcode fin (some key) len =
    rw (length_bytes_lem h len, (length_fields_lem len).0) refl

length-header_bytes :
    (h : ByteOrder) (opcode : ℕ) (fin : Bool) (mask : Option (List ℕ)) (len : ℕ)
    → IsKey mask
    → length (header_bytes h opcode fin mask len) ≡ header_length mask len
unfolding header_length
length-header_bytes h opcode fin none len k =
    rw (header_bytes_lem h opcode fin none len, append-nil)
      (omega (arith, (length_fields_lem len).1))
length-header_bytes h opcode fin (some key) len k =
    rw (header_bytes_lem h opcode fin (some key) len)
      (omega (arith, (length_fields_lem len).1, length-append (size_bytes len) key, k))

header_length_bounds :
    (mask : Option (List ℕ)) (len : ℕ)
    → (2 ≤ header_length mask len) × (header_length mask len ≤ header_max)
unfolding header_length length_fields
header_length_bounds none len = ground arith
header_length_bounds (some key) len = ground arith

wire_ready :
    (block : List ℕ) (len capacity size : ℕ)
    → size ≢ 0
    → wire (record {
      block = some block;
      payload_len = len;
      payload_capacity = capacity;
      header_size = size;
    })
      ≡ take (len + size) (drop (header_max - size) block)
unfolding wire
wire_ready block len capacity size p = ground arith

complete_block :
    (h : ByteOrder) (opcode : ℕ) (fin : Bool) (mask : Option (List ℕ)) (block : List ℕ)
    (len capacity old : ℕ)
    → let size = header_length mask len in
      let header = header_bytes h opcode fin mask len in
      complete h opcode fin mask (record {
        block = some block;
        payload_len = len;
        payload_capacity = capacity;
        header_size = old;
      })
      ≡ record {
        block = some (mask_payload mask len (overwrite_at (header_max - size) header block));
        payload_len = len;
        payload_capacity = capacity;
        header_size = size;
      }
unfolding complete
complete_block h opcode fin mask block len capacity old = refl

-- `NQWebSocketBuffer_complete` on a buffer whose block has room for the header and the payload: the
-- message is the two flags, the payload's length in the shortest of the three forms, highest byte
-- first whatever the host, the key if there is one, and the payload, masked with that key.
pub wire-complete :
    (h : ByteOrder) (opcode : ℕ) (fin : Bool) (mask : Option (List ℕ)) (block : List ℕ)
    (len capacity old : ℕ)
    → header_max + len ≤ length block
    → IsKey mask
    → wire (
        complete h opcode fin mask (record {
          block = some block;
          payload_len = len;
          payload_capacity = capacity;
          header_size = old;
        }))
      ≡ flag1 opcode fin
        ∷ flag2 mask len
        ∷ (size_bytes len ++ (key_bytes mask ++ sent mask (payload_of len (some block))))
wire-complete h opcode fin mask block len capacity old p k =
    ap wire (complete_block h opcode fin mask block len capacity old)
    ∙ wire_ready _ len capacity (header_length mask len) (omega (arith, bounds))
    ∙ wire-Parts mask (header_length mask len) len (header_bytes h opcode fin mask len) block
        (split_block (header_length mask len) len block bounds.1 p)
        (length-header_bytes h opcode fin mask len k)
    ∙ rw (header_bytes_lem h opcode fin mask len) (rw append_assoc refl)
  where
    bounds : (2 ≤ header_length mask len) × (header_length mask len ≤ header_max)
    bounds = header_length_bounds mask len
