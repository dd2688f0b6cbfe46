-- ===== src/Json/Tests.antt =====
-- The writer of JSON run on concrete calls, with a callback that keeps the characters.
use libnetq.Prelude.{
  ℕ, List, [], ◌∷◌, ◌++◌, ◌≡◌, ◌≤◌, ◌<◌, refl, Option, none, some, Bool, true, false, ◌==◌, ◌/◌,
  ◌+◌, if◌then◌else◌, arith,
}
use libnetq.Prelude.Int.{ℤ, pos, negsuc}
use libnetq.Json.{
  escape_of, write_object_end, Level, Printf, JsonWriter, object_begin, object_end, array_end,
  c_string,
}
use libnetq.Json.Writer
use libnetq.Json.Value.{
  Value, object, array, string, int64, null, no_fields, field, no_items, item, write_json,
}
use libnetq.Json.Steps.{quoted}
use libnetq.Json.Print.{print, printable, height}
use libnetq.Json.Escape.{parse_string}
use libnetq.Json.Strings.{parse_string-write_string}
use libnetq.Json.Tree.{write_json_lem}
use libnetq.Json.Calls.{
  Call, run, perform, begin_object, put_key, end_object, end_array, put_null, put_tree,
}
use libnetq.Json.Latch.{run-refusals, refusals}
use libnetq.Json.Within.{depth_index-bound}
use libnetq.Json.Dangling.{run-end_object_key, run-end_array_unopened}

abbrev keep : List ℕ → List ℕ → Bool × List ℕ
keep u s = (true, u ++ s)

-- Prints a digit for the numbers below ten and fails on others.
abbrev one_digit : ℕ → Option (List ℕ)
one_digit n = if n / 10 == 0 then some ((0x30 + n) ∷ []) else none

abbrev print_int : ℤ → Option (List ℕ)
print_int (pos n) = one_digit n
print_int (negsuc n) = none

abbrev lib : Printf
lib = record { Double = ℕ; print_int = print_int; print_uint = one_digit; print_double = one_digit }

abbrev memory : ℕ → Level
memory i = record { is_object = false; has_child = false; has_key = false }

-- {"a":[null,3],"b":"\n"}
abbrev tree : Value ℕ
tree = object (
    field (0x61 ∷ []) (array (item null (item (int64 (pos 3)) no_items)))
      (field (0x62 ∷ []) (string (0x0A ∷ [])) no_fields))

tree_text :
    print lib tree
    ≡ 0x7B ∷ 0x22 ∷ 0x61 ∷ 0x22 ∷ 0x3A ∷ 0x5B ∷ 0x6E ∷ 0x75 ∷ 0x6C ∷ 0x6C ∷ 0x2C ∷ 0x33 ∷ 0x5D
      ∷ 0x2C ∷ 0x22 ∷ 0x62 ∷ 0x22 ∷ 0x3A ∷ 0x22 ∷ 0x5C ∷ 0x6E ∷ 0x22 ∷ 0x7D ∷ []
unfolding print escape_of
tree_text = refl

write_json_lem_example :
    (w : JsonWriter (List ℕ)) × (write_json keep lib tree (Writer.init memory (0x20 ∷ []))
      ≡ (true, w))
    × (w.userdata ≡ (0x20 ∷ []) ++ print lib tree)
    × (w.depth_index ≡ 0)
    × (w.has_error ≡ false)
    × (1 ≤ w.count)
unfolding printable height
write_json_lem_example =
    write_json_lem keep (λ u. u) (λ u s. refl) (λ u s. refl) lib memory (0x20 ∷ []) tree refl
      (omega arith)

run-refusals_example :
    run keep lib (end_object ∷ put_null ∷ put_tree tree ∷ []) (Writer.init memory []) ≡ (
      refusals {A = Call ℕ} (end_object ∷ put_null ∷ put_tree tree ∷ []),
      (perform keep lib end_object (Writer.init memory [])).1,
    )
unfolding Writer.init Writer.write_object_end Writer.guarded write_object_end
run-refusals_example =
    run-refusals keep lib end_object (put_null ∷ put_tree tree ∷ []) (Writer.init memory []) refl
      refl

depth_index-bound_example :
    (run keep lib
      (begin_object ∷ put_tree tree ∷ end_object ∷ [])
      (Writer.init memory [])).1.depth_index
    < 255
depth_index-bound_example =
    depth_index-bound keep lib memory [] (begin_object ∷ put_tree tree ∷ end_object ∷ []) refl

run-end_object_key_example :
    (w : JsonWriter (List ℕ)) × (run keep lib
        (begin_object ∷ put_key (0x61 ∷ []) ∷ end_object ∷ [])
        (Writer.init memory [])
      ≡ (true ∷ true ∷ true ∷ [], w))
    × (w.userdata ≡ object_begin ++ (quoted (c_string (0x61 ∷ [])) ++ object_end))
run-end_object_key_example =
    run-end_object_key keep (λ u. u) (λ u s. refl) (λ u s. refl) lib memory [] (0x61 ∷ [])

run-end_array_unopened_example :
    (w : JsonWriter (List ℕ)) × (run keep lib (end_array ∷ []) (Writer.init memory [])
      ≡ (true ∷ [], w))
    × (w.userdata ≡ array_end)
    × (w.depth_index ≡ 65535)
run-end_array_unopened_example =
    run-end_array_unopened keep (λ u. u) (λ u s. refl) (λ u s. refl) lib memory [] refl

parse_string-write_string_example :
    (w : JsonWriter (List ℕ)) × (Writer.write_string keep lib
        (0x61 ∷ 0x22 ∷ 0x1F ∷ 0 ∷ 0x62 ∷ [])
        (Writer.init memory [])
      ≡ (true, w))
    × (text : List ℕ) × (w.userdata ≡ text)
    × (parse_string (text ++ 0x2C ∷ []) ≡ some (0x61 ∷ 0x22 ∷ 0x1F ∷ [], 0x2C ∷ []))
parse_string-write_string_example =
    parse_string-write_string keep (λ u. u) (λ u s. refl) (λ u s. refl) lib memory []
      (0x61 ∷ 0x22 ∷ 0x1F ∷ 0 ∷ 0x62 ∷ []) (0x2C ∷ [])
      (omega arith, (omega arith, (omega arith, (omega arith, (omega arith, tt)))))
