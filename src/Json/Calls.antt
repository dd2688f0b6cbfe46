-- ===== src/Json/Calls.antt =====
-- libnetq/json/JSONWriter.c: what a program may call, one call after another. The functions for
-- narrower integers and for a `float` do what those for the wide ones do and are left out here.
use libnetq.Prelude.{ℕ, suc, ◌-◌, List, [], ◌∷◌, Bool, true, not, ◌==◌, ◌&&◌, length}
use libnetq.Prelude.Int.{ℤ}
use libnetq.Json.{Printf, JsonWriter, M}
use libnetq.Json.Writer
use libnetq.Json.Writer.{no_length}
use libnetq.Json.Value.{Value, write_json}

pub data Call (D : Type 0) : Type 0 where
  begin_object : Call D
  end_object : Call D
  begin_array : Call D
  end_array : Call D
  put_null : Call D
  put_char : ℕ → Call D
  put_string : List ℕ → Call D
  put_string2 : List ℕ → Call D
  put_int : ℤ → Call D
  put_uint : ℕ → Call D
  put_double : D → Call D
  put_bool : Bool → Call D
  put_tree : Value D → Call D
  put_key : List ℕ → Call D
  begin_key_object : List ℕ → Call D
  begin_key_array : List ℕ → Call D
  put_key_null : List ℕ → Call D
  put_key_char : List ℕ → ℕ → Call D
  put_key_string : List ℕ → List ℕ → Call D
  put_key_string2 : List ℕ → List ℕ → Call D
  put_key_int : List ℕ → ℤ → Call D
  put_key_uint : List ℕ → ℕ → Call D
  put_key_double : List ℕ → D → Call D
  put_key_bool : List ℕ → Bool → Call D

-- The objects and arrays that are open after a call, of `n` before it.
abbrev pub open_after : {D : Type 0} → Call D → ℕ → ℕ
open_after begin_object n = suc n
open_after begin_array n = suc n
open_after (begin_key_object key) n = suc n
open_after (begin_key_array key) n = suc n
open_after end_object n = n - 1
open_after end_array n = n - 1
open_after _ n = n

-- A call that ends something comes where something is open.
abbrev pub allowed : {D : Type 0} → Call D → ℕ → Bool
allowed end_object n = not (n == 0)
allowed end_array n = not (n == 0)
allowed _ n = true

abbrev pub nested : {D : Type 0} → List (Call D) → ℕ → Bool
nested [] n = true
nested (c ∷ cs) n = allowed c n && nested cs (open_after c n)

-- A length that is given is not the mark for none.
abbrev pub has_length : {D : Type 0} → Call D → Bool
has_length (put_string2 val) = not (length val == no_length)
has_length (put_key_string2 key val) = not (length val == no_length)
has_length _ = true

module _ {U : Type 0} (callback : U → List ℕ → Bool × U) (lib : Printf) where
  abbrev pub perform : Call lib.Double → M U
  perform begin_object = Writer.write_object_begin callback lib
  perform end_object = Writer.write_object_end callback lib
  perform begin_array = Writer.write_array_begin callback lib
  perform end_array = Writer.write_array_end callback lib
  perform put_null = Writer.write_null callback lib
  perform (put_char val) = Writer.write_char callback lib val
  perform (put_string val) = Writer.write_string callback lib val
  perform (put_string2 val) = Writer.write_string2 callback lib val
  perform (put_int val) = Writer.write_int64 callback lib val
  perform (put_uint val) = Writer.write_uint64 callback lib val
  perform (put_double val) = Writer.write_double callback lib val
  perform (put_bool val) = Writer.write_bool callback lib val
  perform (put_tree val) = write_json callback lib val
  perform (put_key key) = Writer.write_key callback lib key
  perform (begin_key_object key) = Writer.write_key_object_begin callback lib key
  perform (begin_key_array key) = Writer.write_key_array_begin callback lib key
  perform (put_key_null key) = Writer.write_key_null callback lib key
  perform (put_key_char key val) = Writer.write_key_char callback lib key val
  perform (put_key_string key val) = Writer.write_key_string callback lib key val
  perform (put_key_string2 key val) = Writer.write_key_string2 callback lib key val
  perform (put_key_int key val) = Writer.write_key_int64 callback lib key val
  perform (put_key_uint key val) = Writer.write_key_uint64 callback lib key val
  perform (put_key_double key val) = Writer.write_key_double callback lib key val
  perform (put_key_bool key val) = Writer.write_key_bool callback lib key val

  -- The answers of the calls, and the writer behind the last.
  abbrev pub run : List (Call lib.Double) → JsonWriter U → List Bool × JsonWriter U
  run [] w = ([], w)
  run (c ∷ cs) w = let (a, w1) = perform c w in let (rest, w2) = run cs w1 in (a ∷ rest, w2)
