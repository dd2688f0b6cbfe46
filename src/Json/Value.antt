-- ===== src/Json/Value.antt =====
-- libnetq/json/JSONWriter.c: `NQJSONWriter_writeJSON`, for a value as the functions of
-- libnetq/json/JSON.h show it: a tree, the fields of an object in the order of its iterator.
use libnetq.Prelude.{ℕ, List, Bool, true, ◌&&◌}
use libnetq.Prelude.Int.{ℤ}
use libnetq.Json.{Printf, M, ◌>>◌}
use libnetq.Json.Writer

mutual
  pub data Value (D : Type 0) : Type 0 where
    object : Fields D → Value D
    array : Items D → Value D
    string : List ℕ → Value D
    int64 : ℤ → Value D
    double : D → Value D
    bool : Bool → Value D
    null : Value D

  pub data Fields (D : Type 0) : Type 0 where
    no_fields : Fields D
    field : List ℕ → Value D → Fields D → Fields D

  pub data Items (D : Type 0) : Type 0 where
    no_items : Items D
    item : Value D → Items D → Items D

-- `success &= f(writer)`: the call is made whatever the calls before it answered.
abbrev pub and_also : {U : Type 0} → M U → M U → M U
and_also m k w = let (a, w1) = m w in let (b, w2) = k w1 in (a && b, w2)

abbrev pub nothing_more : {U : Type 0} → M U
nothing_more w = (true, w)

module _ {U : Type 0} (callback : U → List ℕ → Bool × U) (lib : Printf) where
  unfoldable mutual
    pub write_json : Value lib.Double → M U
    write_json (object fields) =
        and_also (Writer.write_object_begin callback lib)
          (and_also (write_fields fields) (Writer.write_object_end callback lib))
    write_json (array items) =
        and_also (Writer.write_array_begin callback lib)
          (and_also (write_items items) (Writer.write_array_end callback lib))
    write_json (string val) = Writer.write_string callback lib val
    write_json (int64 val) = Writer.write_int64 callback lib val
    write_json (double val) = Writer.write_double callback lib val
    write_json (bool val) = Writer.write_bool callback lib val
    write_json null = Writer.write_null callback lib

    pub write_fields : Fields lib.Double → M U
    write_fields no_fields = nothing_more
    write_fields (field key val more) =
        and_also (Writer.write_key callback lib key) (and_also (write_json val) (write_fields more))

    pub write_items : Items lib.Double → M U
    write_items no_items = nothing_more
    write_items (item val more) = and_also (write_json val) (write_items more)

module _ {U : Type 0} (callback : U → List ℕ → Bool × U) (lib : Printf) where
  unfoldable pub write_key_json : List ℕ → Value lib.Double → M U
  write_key_json key val = Writer.write_key callback lib key >> write_json callback lib val
