-- ===== src/Json.antt =====
-- libnetq/json/JSONWriter.c: the state of a writer and what it writes for one call.
-- The callback with its `userdata` is a parameter: it takes what was gathered so far and the
-- characters, and answers whether they were taken. What `sprintf` makes of a number is a parameter
-- too, `none` for a negative result; doubles are a type of which nothing is known.
-- `depth` is the memory from the array of that name on: it has 255 places, and what stands there
-- at first is not known.
pub mod Writer
pub mod Value
pub mod Escape
pub mod Steps
pub mod Print
pub mod Settle
pub mod Delimit
pub mod Single
pub mod Brackets
pub mod Members
pub mod Tree
pub mod Calls
pub mod Latch
pub mod Depth
pub mod Nesting
pub mod Within
pub mod Strings
pub mod Dangling
mod Tests
use libnetq.Prelude.{
  ℕ, suc, ◌+◌, ◌-◌, ◌*◌, ◌/◌, ◌%◌, ◌^◌, List, [], ◌∷◌, ◌++◌, Option, none, some, Bool, true, false,
  not, bit_and, ltb, leb, ◌==◌, ◌&&◌, if◌then◌else◌, length,
}
use libnetq.Prelude.Int.{ℤ}

pub record Level : Type 0 where
  pub is_object : Bool
  pub has_child : Bool
  pub has_key : Bool

-- The part of the C library that the writer calls.
pub record Printf : Type 1 where
  pub Double : Type 0
  pub print_int : ℤ → Option (List ℕ)
  pub print_uint : ℕ → Option (List ℕ)
  pub print_double : Double → Option (List ℕ)

pub record JsonWriter (U : Type 0) : Type 0 where
  pub userdata : U
  pub count : ℕ
  pub has_error : Bool
  pub depth : ℕ → Level
  pub depth_index : ℕ

-- The characters {, }, [, ], " and the comma and the colon.
abbrev pub object_begin : List ℕ
object_begin = 0x7B ∷ []

abbrev pub object_end : List ℕ
object_end = 0x7D ∷ []

abbrev pub array_begin : List ℕ
array_begin = 0x5B ∷ []

abbrev pub array_end : List ℕ
array_end = 0x5D ∷ []

abbrev pub quote_mark : List ℕ
quote_mark = 0x22 ∷ []

abbrev pub comma : List ℕ
comma = 0x2C ∷ []

abbrev pub colon : List ℕ
colon = 0x3A ∷ []

abbrev pub null_text : List ℕ
null_text = 0x6E ∷ 0x75 ∷ 0x6C ∷ 0x6C ∷ []

abbrev pub true_text : List ℕ
true_text = 0x74 ∷ 0x72 ∷ 0x75 ∷ 0x65 ∷ []

abbrev pub false_text : List ℕ
false_text = 0x66 ∷ 0x61 ∷ 0x6C ∷ 0x73 ∷ 0x65 ∷ []

abbrev pub num2ascii : ℕ → ℕ
num2ascii b = (if ltb b 10 then 0x30 else 0x41 - 10) + b

-- NQIsPrintable, which is false for the bytes from 128 on, whether `char` is signed or not.
abbrev pub is_printable : ℕ → Bool
is_printable c = leb 0x20 c && leb c 0x7E

-- What a character of a string is replaced by, if it is.
unfoldable pub escape_of : ℕ → Option (List ℕ)
escape_of c =
    if c == 0x22
    then some (0x5C ∷ 0x22 ∷ [])
    else if c == 0x5C
    then some (0x5C ∷ 0x5C ∷ [])
    else if c == 0x08
    then some (0x5C ∷ 0x62 ∷ [])
    else if c == 0x0C
    then some (0x5C ∷ 0x66 ∷ [])
    else if c == 0x0A
    then some (0x5C ∷ 0x6E ∷ [])
    else if c == 0x0D
    then some (0x5C ∷ 0x72 ∷ [])
    else if c == 0x09
    then some (0x5C ∷ 0x74 ∷ [])
    else if is_printable c
    then none
    else some (
        0x5C
        ∷ 0x75
        ∷ 0x30
        ∷ 0x30
        ∷ num2ascii (bit_and c 0xF0 / 2 ^ 4)
        ∷ num2ascii (bit_and c 0x0F)
        ∷ [])

-- A C string ends at its first 0.
abbrev pub c_string : List ℕ → List ℕ
c_string [] = []
c_string (c ∷ cs) = if c == 0 then [] else c ∷ c_string cs

abbrev pub update : (ℕ → Level) → ℕ → Level → ℕ → Level
update f i l j = if i == j then l else f j

-- A step that may refuse: its answer and the writer behind it.
abbrev pub M : Type 0 → Type 0
M U = JsonWriter U → Bool × JsonWriter U

abbrev pub and_then : {U : Type 0} → Bool × JsonWriter U → M U → Bool × JsonWriter U
and_then (true, w) k = k w
and_then (false, w) k = (false, w)

infixl 5 ◌>>◌
abbrev pub ◌>>◌ : {U : Type 0} → M U → M U → M U
(m >> k) w = and_then (m w) k

abbrev pub modify : {U : Type 0} → (JsonWriter U → JsonWriter U) → M U
modify f w = (true, f w)

abbrev pub current : {U : Type 0} → JsonWriter U → Level
current w = w.depth w.depth_index

abbrev pub set_current : {U : Type 0} → Level → JsonWriter U → JsonWriter U
set_current l w = record w { depth = update w.depth w.depth_index l }

abbrev pub count_one : {U : Type 0} → M U
count_one = modify (λ w. record w { count = suc w.count })

abbrev pub is_last_depth : {U : Type 0} → JsonWriter U → Bool
is_last_depth w = leb (255 - 1) w.depth_index

abbrev pub entered : {U : Type 0} → Bool → JsonWriter U → JsonWriter U
entered object w = record w {
  depth_index = suc w.depth_index;
  depth =
      update w.depth (suc w.depth_index)
        (record { is_object = object; has_child = false; has_key = false });
}

-- `depthIndex` has 16 bits.
abbrev pub left : {U : Type 0} → JsonWriter U → JsonWriter U
left w = record w { depth_index = (w.depth_index + 65535) % 65536; count = suc w.count }

module _ {U : Type 0} (callback : U → List ℕ → Bool × U) where
  abbrev pub call : List ℕ → M U
  call s w = let (taken, u) = callback w.userdata s in (taken, record w { userdata = u })

  unfoldable pub write_impl : List ℕ → M U
  write_impl [] w = (true, w)
  write_impl (c ∷ cs) w = call (c ∷ cs) w

  -- A round of the loop, after which `next` goes on; `pending` are the characters from `start` on,
  -- which need no escape.
  abbrev pub escape_step : (List ℕ → M U) → Option (List ℕ) → ℕ → List ℕ → M U
  escape_step next none c pending = next (pending ++ c ∷ [])
  escape_step next (some buf) c pending = write_impl pending >> write_impl buf >> next []

  unfoldable pub escape_loop : List ℕ → List ℕ → M U
  escape_loop [] pending = write_impl pending
  escape_loop (c ∷ cs) pending = escape_step (escape_loop cs) (escape_of c) c pending

  abbrev pub write_escape : List ℕ → M U
  write_escape s = escape_loop s []

  unfoldable pub write_key_delimiter : M U
  write_key_delimiter w =
      if w.depth_index == 0
      then (false, w)
      else if not (current w).is_object
      then (false, w)
      else if (current w).has_key
      then (false, w)
      else and_then (if (current w).has_child then write_impl comma w else (true, w))
          (modify (λ w. set_current (record (current w) { has_key = true }) w))

  unfoldable pub write_val_delimiter : M U
  write_val_delimiter w =
      if w.depth_index == 0
      then (w.count == 0, w)
      else and_then
          (if (current w).is_object
            then (if not (current w).has_key
                then (false, w)
                else and_then (write_impl colon w)
                    (modify (λ w. set_current (record (current w) { has_key = false }) w)))
            else if (current w).has_child
            then write_impl comma w
            else (true, w))
          (modify (λ w. set_current (record (current w) { has_child = true }) w))

  unfoldable pub write_key : List ℕ → M U
  write_key s w =
      if not (current w).is_object
      then (false, w)
      else (write_key_delimiter >> write_impl quote_mark >> write_escape s >> write_impl quote_mark)
          w

  unfoldable pub write_string : List ℕ → M U
  write_string s =
      write_val_delimiter
      >> write_impl quote_mark
      >> write_escape s
      >> write_impl quote_mark
      >> count_one

  unfoldable pub write_object_begin : M U
  write_object_begin w =
      if is_last_depth w
      then (false, w)
      else (write_val_delimiter >> write_impl object_begin >> modify (entered true)) w

  unfoldable pub write_object_end : M U
  write_object_end w =
      if not (current w).is_object then (false, w) else (write_impl object_end >> modify left) w

  unfoldable pub write_array_begin : M U
  write_array_begin w =
      if is_last_depth w
      then (false, w)
      else (write_val_delimiter >> write_impl array_begin >> modify (entered false)) w

  unfoldable pub write_array_end : M U
  write_array_end w =
      if (current w).is_object then (false, w) else (write_impl array_end >> modify left) w

  -- What `sprintf` put into a buffer of 32 characters.
  unfoldable pub write_formatted : Option (List ℕ) → M U
  write_formatted none w = (false, w)
  write_formatted (some buf) w = if leb 32 (length buf) then (false, w) else write_impl buf w

  unfoldable pub write_number : Option (List ℕ) → M U
  write_number printed = write_val_delimiter >> write_formatted printed >> count_one

  unfoldable pub write_text : List ℕ → M U
  write_text text = write_val_delimiter >> write_impl text >> count_one

  abbrev pub write_null : M U
  write_null = write_text null_text

  abbrev pub write_bool : Bool → M U
  write_bool val = write_text (if val then true_text else false_text)
