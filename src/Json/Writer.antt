-- ===== src/Json/Writer.antt =====
-- libnetq/json/JSONWriter.c: the functions that a program calls, but for the one that writes a tree.
-- A `char` is one character; the string of a function with a length is that long. Integers come in
-- their widths, which C converts to 64 bits, and a `float` is converted to a double.
use libnetq.Prelude.{ℕ, ◌-◌, ◌^◌, List, [], ◌∷◌, Bool, true, false, ◌==◌, if◌then◌else◌, length}
use libnetq.Prelude.Int.{ℤ}
use libnetq.Json
use libnetq.Json.{Level, Printf, JsonWriter, M, ◌>>◌, c_string}

-- What stands in `depth` at the start is not written by `NQJSONWriter_init`.
unfoldable pub init : {U : Type 0} → (ℕ → Level) → U → JsonWriter U
init memory userdata = record {
  userdata = userdata;
  count = 0;
  has_error = false;
  depth = memory;
  depth_index = 0;
}

abbrev pub init5 : {U : Type 0} → (ℕ → Level) → U → JsonWriter U
init5 memory userdata = init memory userdata

abbrev pub settle : {U : Type 0} → Bool × JsonWriter U → Bool × JsonWriter U
settle (true, w) = (true, w)
settle (false, w) = (false, record w { has_error = true })

-- Nothing more is written once a call has failed.
unfoldable pub guarded : {U : Type 0} → M U → M U
guarded m w = if w.has_error then (false, w) else settle (m w)

-- kNoLength
abbrev pub no_length : ℕ
no_length = 2 ^ 64 - 1

module _ {U : Type 0} (callback : U → List ℕ → Bool × U) (lib : Printf) where
  unfoldable pub write_object_begin : M U
  write_object_begin = guarded (Json.write_object_begin callback)

  unfoldable pub write_object_end : M U
  write_object_end = guarded (Json.write_object_end callback)

  unfoldable pub write_array_begin : M U
  write_array_begin = guarded (Json.write_array_begin callback)

  unfoldable pub write_array_end : M U
  write_array_end = guarded (Json.write_array_end callback)

  unfoldable pub write_null : M U
  write_null = guarded (Json.write_null callback)

  unfoldable pub write_char : ℕ → M U
  write_char val = guarded (Json.write_string callback (val ∷ []))

  unfoldable pub write_string : List ℕ → M U
  write_string val = guarded (Json.write_string callback (c_string val))

  unfoldable pub write_string2 : List ℕ → M U
  write_string2 val w =
      if length val == no_length then (false, w) else guarded (Json.write_string callback val) w

  unfoldable pub write_int64 : ℤ → M U
  write_int64 val = guarded (Json.write_number callback (lib.print_int val))

  unfoldable pub write_int32 : ℤ → M U
  write_int32 val = guarded (Json.write_number callback (lib.print_int val))

  unfoldable pub write_int16 : ℤ → M U
  write_int16 val = guarded (Json.write_number callback (lib.print_int val))

  unfoldable pub write_int8 : ℤ → M U
  write_int8 val = guarded (Json.write_number callback (lib.print_int val))

  unfoldable pub write_uint64 : ℕ → M U
  write_uint64 val = guarded (Json.write_number callback (lib.print_uint val))

  unfoldable pub write_uint32 : ℕ → M U
  write_uint32 val = guarded (Json.write_number callback (lib.print_uint val))

  unfoldable pub write_uint16 : ℕ → M U
  write_uint16 val = guarded (Json.write_number callback (lib.print_uint val))

  unfoldable pub write_uint8 : ℕ → M U
  write_uint8 val = guarded (Json.write_number callback (lib.print_uint val))

  unfoldable pub write_float : lib.Double → M U
  write_float val = guarded (Json.write_number callback (lib.print_double val))

  unfoldable pub write_double : lib.Double → M U
  write_double val = guarded (Json.write_number callback (lib.print_double val))

  unfoldable pub write_bool : Bool → M U
  write_bool val = guarded (Json.write_bool callback val)

  unfoldable pub write_key : List ℕ → M U
  write_key key = guarded (Json.write_key callback (c_string key))

  unfoldable pub write_key_object_begin : List ℕ → M U
  write_key_object_begin key =
      guarded (Json.write_key callback (c_string key) >> Json.write_object_begin callback)

  unfoldable pub write_key_array_begin : List ℕ → M U
  write_key_array_begin key =
      guarded (Json.write_key callback (c_string key) >> Json.write_array_begin callback)

  unfoldable pub write_key_null : List ℕ → M U
  write_key_null key = guarded (Json.write_key callback (c_string key) >> Json.write_null callback)

  unfoldable pub write_key_char : List ℕ → ℕ → M U
  write_key_char key val =
      guarded (Json.write_key callback (c_string key) >> Json.write_string callback (val ∷ []))

  unfoldable pub write_key_string : List ℕ → List ℕ → M U
  write_key_string key val =
      guarded (Json.write_key callback (c_string key) >> Json.write_string callback (c_string val))

  unfoldable pub write_key_string2 : List ℕ → List ℕ → M U
  write_key_string2 key val w =
      if length val == no_length
      then (false, w)
      else guarded (Json.write_key callback (c_string key) >> Json.write_string callback val) w

  unfoldable pub write_key_int64 : List ℕ → ℤ → M U
  write_key_int64 key val =
      guarded
        (Json.write_key callback (c_string key) >> Json.write_number callback (lib.print_int val))

  unfoldable pub write_key_int32 : List ℕ → ℤ → M U
  write_key_int32 key val =
      guarded
        (Json.write_key callback (c_string key) >> Json.write_number callback (lib.print_int val))

  unfoldable pub write_key_int16 : List ℕ → ℤ → M U
  write_key_int16 key val =
      guarded
        (Json.write_key callback (c_string key) >> Json.write_number callback (lib.print_int val))

  unfoldable pub write_key_int8 : List ℕ → ℤ → M U
  write_key_int8 key val =
      guarded
        (Json.write_key callback (c_string key) >> Json.write_number callback (lib.print_int val))

  unfoldable pub write_key_uint64 : List ℕ → ℕ → M U
  write_key_uint64 key val =
      guarded
        (Json.write_key callback (c_string key) >> Json.write_number callback (lib.print_uint val))

  unfoldable pub write_key_uint32 : List ℕ → ℕ → M U
  write_key_uint32 key val =
      guarded
        (Json.write_key callback (c_string key) >> Json.write_number callback (lib.print_uint val))

  unfoldable pub write_key_uint16 : List ℕ → ℕ → M U
  write_key_uint16 key val =
      guarded
        (Json.write_key callback (c_string key) >> Json.write_number callback (lib.print_uint val))

  unfoldable pub write_key_uint8 : List ℕ → ℕ → M U
  write_key_uint8 key val =
      guarded
        (Json.write_key callback (c_string key) >> Json.write_number callback (lib.print_uint val))

  unfoldable pub write_key_float : List ℕ → lib.Double → M U
  write_key_float key val =
      guarded (
        Json.write_key callback (c_string key) >> Json.write_number callback (lib.print_double val))

  unfoldable pub write_key_double : List ℕ → lib.Double → M U
  write_key_double key val =
      guarded (
        Json.write_key callback (c_string key) >> Json.write_number callback (lib.print_double val))

  unfoldable pub write_key_bool : List ℕ → Bool → M U
  write_key_bool key val =
      guarded (Json.write_key callback (c_string key) >> Json.write_bool callback val)
