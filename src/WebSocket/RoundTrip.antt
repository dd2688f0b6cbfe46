-- ===== src/WebSocket/RoundTrip.antt =====
-- A message that `NQWebSocketBuffer_complete` has finished is read back by `NQWebSocketFrameParse`.
use libnetq.Prelude.{
  ℕ, ◌+◌, ◌^◌, ◌≤◌, ◌<◌, ◌≡◌, ◌⊎◌, refl, sym, ap, ◌∙◌, List, [], ◌∷◌, ◌++◌, Bool, true, false, not,
  Option, none, some, arith, length, drop, ◌==◌, bit_and, if◌then◌else◌, length-append,
  append_assoc, length-take, length-drop,
}
use libnetq.Prelude.Bits.{bit_and_low, bit_and_field, bit_or_above}
use libnetq.Endian.{ByteOrder, big, load, host_to_be16, host_to_be64}
use libnetq.Endian.Memory.{
  host_to_be16-load, host_to_be64-load, load-store, length-store, store-IsByte,
}
use libnetq.BufferBuilder.Get.{get_uint16_be, get_uint64_be}
use libnetq.BufferBuilder.Layout.{high_first, store_big2, store_big8}
use libnetq.WebSocket.{
  WebSocketHeader, read_size, read_mask, header_parse, accepts, frame_parse, payload_unmask,
  opcode_text, opcode_binary,
}
use libnetq.WebSocket.Mask.{payload_unmask_twice}
use libnetq.WebSocket.Buffer.{header_max, payload_of, complete, wire}
use libnetq.WebSocket.Complete.{
  IsKey, size_flag, size_bytes, key_bytes, flag1, flag2, sent, drop_prefix, take_prefix,
  length-sent, wire-complete,
}

get_two :
    (h : ByteOrder) (w : ℕ) (rest : List ℕ)
    → w < 2 ^ 16
    → get_uint16_be h (high_first 2 w ++ rest) ≡ some (2, w)
unfolding get_uint16_be
get_two h w rest p = ground (arith, value)
  where
    value : host_to_be16 h (load h (high_first 2 w)) ≡ w
    value =
        rw (← store_big2 w) (
          host_to_be16-load h _ (length-store big 2 w) (store-IsByte big 2 w)
          ∙ load-store big 2 w p)

get_eight :
    (h : ByteOrder) (w : ℕ) (rest : List ℕ)
    → w < 2 ^ 64
    → get_uint64_be h (high_first 8 w ++ rest) ≡ some (8, w)
unfolding get_uint64_be
get_eight h w rest p = ground (arith, value)
  where
    value : host_to_be64 h (load h (high_first 8 w)) ≡ w
    value =
        rw (← store_big8 w) (
          host_to_be64-load h _ (length-store big 8 w) (store-IsByte big 8 w)
          ∙ load-store big 8 w p)

read_size_lem :
    (h : ByteOrder) (len : ℕ) (rest : List ℕ)
    → len < 2 ^ 64
    → read_size h (size_flag len) (size_bytes len ++ rest) ≡ some (len, length (size_bytes len))
unfolding read_size
read_size_lem h len rest p = ground (arith, get_two h len rest, get_eight h len rest)

flag1_lem :
    (opcode : ℕ) (fin : Bool)
    → opcode < 16
    → (bit_and (flag1 opcode fin) 0x0f ≡ opcode)
      × (bit_and (flag1 opcode fin) 0x70 ≡ 0)
      × (not (bit_and (flag1 opcode fin) 0x80 == 0) ≡ fin)
flag1_lem opcode true p = ground (
  arith,
  bit_or_above 7 opcode 1,
  bit_and_low 4 (opcode + 128),
  bit_and_field 4 3 (opcode + 128),
  bit_and_field 7 1 (opcode + 128),
)
flag1_lem opcode false p =
    ground (arith, bit_and_low 4 opcode, bit_and_field 4 3 opcode, bit_and_field 7 1 opcode)

abbrev pub has_key : Option (List ℕ) → Bool
has_key none = false
has_key (some key) = true

flag2_lem :
    (mask : Option (List ℕ)) (len : ℕ)
    → (bit_and (flag2 mask len) 0x7f ≡ size_flag len)
      × (not (bit_and (flag2 mask len) 0x80 == 0) ≡ has_key mask)
flag2_lem none len =
    ground (arith, bit_and_low 7 (size_flag len), bit_and_field 7 1 (size_flag len))
flag2_lem (some key) len = ground (
  arith,
  bit_or_above 7 (size_flag len) 1,
  bit_and_low 7 (size_flag len + 128),
  bit_and_field 7 1 (size_flag len + 128),
)

-- The parser on bytes whose fields are known.
header_parse_of :
    (h : ByteOrder) (f1 f2 : ℕ) (rest : List ℕ) (opcode len n m : ℕ) (fin masked : Bool)
    (key : List ℕ)
    → bit_and f1 0x0f ≡ opcode
    → bit_and f1 0x70 ≡ 0
    → not (bit_and f1 0x80 == 0) ≡ fin
    → not (bit_and f2 0x80 == 0) ≡ masked
    → read_size h (bit_and f2 0x7f) rest ≡ some (len, n)
    → read_mask masked (drop n rest) ≡ some (key, m)
    → header_parse h (f1 ∷ f2 ∷ rest)
      ≡ some (
        2 + n + m,
        record {
          payload_size = len;
          mask = key;
          rsv = 0;
          opcode = opcode;
          fin = fin;
          has_mask = masked;
        },
      )
unfolding header_parse
header_parse_of h f1 f2 rest opcode len n m fin masked key p q r s t u =
    rw (s, t) (rw u (rw (p, q, r) refl))

frame_parse_of :
    (h : ByteOrder) (bytes : List ℕ) (size : ℕ) (header : WebSocketHeader)
    → header_parse h bytes ≡ some (size, header)
    → header.rsv ≡ 0
    → accepts header ≡ true
    → size + header.payload_size ≡ length bytes
    → length bytes < 2 ^ 64
    → frame_parse h bytes
      ≡ some (record {
        opcode = header.opcode;
        fin = header.fin;
        has_mask = header.has_mask;
        mask = header.mask;
        payload_size = header.payload_size;
        payload =
            if header.has_mask
            then payload_unmask header.mask (drop size bytes)
            else drop size bytes;
      })
unfolding frame_parse
frame_parse_of h bytes size header p q r s t = rw p (ground (arith, r))

-- The key that the parser reports: zeros where there is none.
abbrev pub key_read : Option (List ℕ) → List ℕ
key_read none = 0 ∷ 0 ∷ 0 ∷ 0 ∷ []
key_read (some key) = key

read_mask_lem :
    (mask : Option (List ℕ)) (body : List ℕ)
    → IsKey mask
    → read_mask (has_key mask) (key_bytes mask ++ body)
      ≡ some (key_read mask, length (key_bytes mask))
unfolding read_mask
read_mask_lem none body k = refl
read_mask_lem (some key) body k = ground (arith, length-append key body, take_prefix 4 key body k)

-- The body of the message, unmasked.
received :
    (mask : Option (List ℕ)) (payload : List ℕ)
    → (if has_key mask
        then payload_unmask (key_read mask) (sent mask payload)
        else sent mask payload)
      ≡ payload
received none payload = refl
received (some key) payload = (payload_unmask_twice key payload).0

length_three :
    (a b : ℕ) (xs ys zs : List ℕ)
    → length (a ∷ b ∷ (xs ++ (ys ++ zs))) ≡ 2 + length xs + length ys + length zs
length_three a b xs ys zs = omega (arith, length-append xs (ys ++ zs), length-append ys zs)

drop_three :
    (a b : ℕ) (xs ys zs : List ℕ)
    → drop (2 + length xs + length ys) (a ∷ b ∷ (xs ++ (ys ++ zs))) ≡ zs
drop_three a b xs ys zs =
    ap (λ (r : List ℕ). drop (2 + length xs + length ys) (a ∷ b ∷ r)) (sym (append_assoc xs ys zs))
    ∙ drop_prefix (2 + length xs + length ys) (a ∷ b ∷ (xs ++ ys)) zs
        (omega (arith, length-append xs ys))

module _ (opcode : ℕ) (fin : Bool) (mask : Option (List ℕ)) (len : ℕ) (k : IsKey mask)
    (body : List ℕ) where
  -- A message on the wire.
  abbrev message : List ℕ
  message = flag1 opcode fin ∷ flag2 mask len ∷ (size_bytes len ++ (key_bytes mask ++ body))

  header_parse-message :
      (h : ByteOrder)
      → opcode < 16
      → len < 2 ^ 64
      → header_parse h message
        ≡ some (
          2 + length (size_bytes len) + length (key_bytes mask),
          record {
            payload_size = len;
            mask = key_read mask;
            rsv = 0;
            opcode = opcode;
            fin = fin;
            has_mask = has_key mask;
          },
        )
  header_parse-message h p q =
      header_parse_of h (flag1 opcode fin) (flag2 mask len) _ opcode len (length (size_bytes len))
        (length (key_bytes mask)) fin (has_key mask) (key_read mask) (flag1_lem opcode fin p).0
        (flag1_lem opcode fin p).1 (flag1_lem opcode fin p).2 (flag2_lem mask len).1
        (rw (flag2_lem mask len).0 (read_size_lem h len _ q))
        (rw (drop_prefix (length (size_bytes len)) (size_bytes len) (key_bytes mask ++ body) refl)
          (read_mask_lem mask body k))

  length-message :
      length message ≡ 2 + length (size_bytes len) + length (key_bytes mask) + length body
  length-message =
      length_three (flag1 opcode fin) (flag2 mask len) (size_bytes len) (key_bytes mask) body

  drop-message : drop (2 + length (size_bytes len) + length (key_bytes mask)) message ≡ body
  drop-message =
      drop_three (flag1 opcode fin) (flag2 mask len) (size_bytes len) (key_bytes mask) body

length-size_bytes : (len : ℕ) → length (size_bytes len) ≤ 8
length-size_bytes len = ground arith

length-key_bytes : (mask : Option (List ℕ)) → IsKey mask → length (key_bytes mask) ≤ 4
length-key_bytes none k = omega arith
length-key_bytes (some key) k = omega arith

accepts_data :
    (header : WebSocketHeader)
    → (header.opcode ≡ opcode_text) ⊎ (header.opcode ≡ opcode_binary)
    → accepts header ≡ true
unfolding accepts
accepts_data header p = ground arith

-- A finished message with the opcode of text or binary data, on a host of either byte order, comes
-- back from the parser with its opcode, its last-frame flag, its key and its payload unmasked, for
-- every payload, with a key or without, whatever the byte order of the reader's host.
pub frame_parse-complete :
    (h h' : ByteOrder) (opcode : ℕ) (fin : Bool) (mask : Option (List ℕ)) (block : List ℕ)
    (len capacity old : ℕ)
    → (opcode ≡ opcode_text) ⊎ (opcode ≡ opcode_binary)
    → header_max + len ≤ length block
    → length block < 2 ^ 64
    → IsKey mask
    → frame_parse h' (
        wire (
          complete h opcode fin mask (record {
            block = some block;
            payload_len = len;
            payload_capacity = capacity;
            header_size = old;
          })))
      ≡ some (record {
        opcode = opcode;
        fin = fin;
        has_mask = has_key mask;
        mask = key_read mask;
        payload_size = len;
        payload = payload_of len (some block);
      })
frame_parse-complete h h' opcode fin mask block len capacity old o p q k =
    rw (wire-complete h opcode fin mask block len capacity old p k) (
      frame_parse_of h' (message opcode fin mask len k body) _ _
        (header_parse-message opcode fin mask len k body h' small (omega arith)) refl
        (accepts_data _ o) whole fits
      ∙ ap
          (λ (r : List ℕ). some (record {
            opcode = opcode;
            fin = fin;
            has_mask = has_key mask;
            mask = key_read mask;
            payload_size = len;
            payload = r;
          }))
          (ap (λ (r : List ℕ). if has_key mask then payload_unmask (key_read mask) r else r)
              (drop-message opcode fin mask len k body)
            ∙ received mask payload))
  where
    payload : List ℕ
    payload = payload_of len (some block)

    body : List ℕ
    body = sent mask payload

    small : opcode < 16
    small = omega arith

    length-body : length body ≡ len
    length-body =
        length-sent mask payload
        ∙ omega (arith, length-take len (drop header_max block), length-drop header_max block)

    whole :
        2 + length (size_bytes len) + length (key_bytes mask) + len
        ≡ length (message opcode fin mask len k body)
    whole = omega (arith, length-message opcode fin mask len k body, length-body)

    fits : length (message opcode fin mask len k body) < 2 ^ 64
    fits = omega (
      arith,
      length-message opcode fin mask len k body,
      length-body,
      length-size_bytes len,
      length-key_bytes mask k,
    )
