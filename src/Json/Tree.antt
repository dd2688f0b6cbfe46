-- ===== src/Json/Tree.antt =====
-- Writing a tree.
use libnetq.Prelude.{
  ℕ, ◌≤◌, ◌≡◌, refl, ap, ◌∙◌, List, [], ◌++◌, append_assoc, Bool, true, false, not, if◌then◌else◌,
  arith,
}
use libnetq.Json
use libnetq.Json.{
  Level, Printf, JsonWriter, M, and_then, ◌>>◌, modify, current, set_current, count_one, update,
  write_impl, comma, colon, quote_mark, write_escape, write_key_delimiter, write_val_delimiter,
  write_string, write_formatted, write_number, write_text, entered, left, c_string, object_begin,
  object_end, null_text, true_text, false_text, array_begin, array_end,
}
use libnetq.Json.Writer
use libnetq.Json.Writer.{guarded, settle}
use libnetq.Json.Value.{
  Value, Fields, Items, object, array, string, int64, double, bool, null, no_fields, field,
  no_items, item, and_also, write_json, write_fields, write_items,
}
use libnetq.Json.Print.{print, printable, height}
use libnetq.Json.Single.{
  guarded-Does, write_string-Does, write_text-Does, write_number-Does, left_level,
}
use libnetq.Json.Brackets.{enter, leave}
use libnetq.Json.Delimit.{Slot, Does-congr}
use libnetq.Json.Members.{
  DoesValue, DoesFields, DoesItems, and_also_lem, guarded_lem, field-Does, item-Does, nothing-Does,
}

module _ {U : Type 0} (callback : U → List ℕ → Bool × U) (contents : U → List ℕ)
    (takes : (u : U) (s : List ℕ) → (callback u s).0 ≡ true)
    (appends : (u : U) (s : List ℕ) → contents (callback u s).1 ≡ contents u ++ s)
    (lib : Printf) where
  object-Does :
      (fs : Fields lib.Double)
      → DoesFields callback contents takes appends lib fs
      → DoesValue callback contents takes appends lib (object fs)
  unfolding write_json print printable height Writer.write_object_begin Writer.write_object_end
      Json.write_object_begin Json.write_object_end
  object-Does fs ih before l w h p d slot =
      let begin = Writer.write_object_begin callback lib in
      let inner = write_fields callback lib fs in
      let end = Writer.write_object_end callback lib in
      let (w1, e1, q1) =
        enter callback contents takes appends true object_begin w h (omega arith) slot in
      let (c', (w2, e2, q2)) =
        ih false w1 q1.no_error p (omega (arith, q1.deeper)) (omega (arith, q1.deeper))
          q1.inner_level in
      let (w3, e3, q3) = leave callback contents takes appends object_end (omega arith) q1 q2 in
      let inside : (current w2).is_object ≡ true =
        ap (λ l. l.is_object) (left_level callback contents takes appends lib q2) in
      let closing = (write_impl callback object_end >> modify left) w2 in
      let closed = ap (λ b. if not b then (false, w2) else closing) inside ∙ e3 in
      Does-congr callback contents takes appends refl (append_assoc before object_begin _) refl (
        w3,
        and_also_lem callback contents takes appends lib begin (and_also inner end) w
            (guarded_lem callback contents takes appends lib (Json.write_object_begin callback) w h
              e1)
            (and_also_lem callback contents takes appends lib inner end w1 e2 (
              guarded_lem callback contents takes appends lib (Json.write_object_end callback) w2
                q2.no_error closed)),
        q3,
      )

  array-Does :
      (fs : Items lib.Double)
      → DoesItems callback contents takes appends lib fs
      → DoesValue callback contents takes appends lib (array fs)
  unfolding write_json print printable height Writer.write_array_begin Writer.write_array_end
      Json.write_array_begin Json.write_array_end
  array-Does fs ih before l w h p d slot =
      let begin = Writer.write_array_begin callback lib in
      let inner = write_items callback lib fs in
      let end = Writer.write_array_end callback lib in
      let (w1, e1, q1) =
        enter callback contents takes appends false array_begin w h (omega arith) slot in
      let (c', (w2, e2, q2)) =
        ih false w1 q1.no_error p (omega (arith, q1.deeper)) (omega (arith, q1.deeper))
          q1.inner_level in
      let (w3, e3, q3) = leave callback contents takes appends array_end (omega arith) q1 q2 in
      let inside : (current w2).is_object ≡ false =
        ap (λ l. l.is_object) (left_level callback contents takes appends lib q2) in
      let closing = (write_impl callback array_end >> modify left) w2 in
      let closed = ap (λ b. if b then (false, w2) else closing) inside ∙ e3 in
      Does-congr callback contents takes appends refl (append_assoc before array_begin _) refl (
        w3,
        and_also_lem callback contents takes appends lib begin (and_also inner end) w
            (guarded_lem callback contents takes appends lib (Json.write_array_begin callback) w h
              e1)
            (and_also_lem callback contents takes appends lib inner end w1 e2 (
              guarded_lem callback contents takes appends lib (Json.write_array_end callback) w2
                q2.no_error closed)),
        q3,
      )

  write_json-Does : (j : Value lib.Double) → DoesValue callback contents takes appends lib j
  unfolding write_json print printable height Writer.write_string Writer.write_int64
      Writer.write_double Writer.write_bool Writer.write_null
  write_json-Does j =
      elim j
        as (DoesValue callback contents takes appends lib) (DoesFields callback contents takes
          appends lib) (DoesItems callback contents takes appends lib) [
            | object (fs → ih) ↦ object-Does fs ih
            | array (js → ih) ↦ array-Does js ih
            | string s ↦ λ before l w h p d slot.
                guarded-Does callback contents takes appends lib
                  (Json.write_string callback (c_string s)) h
                  (write_string-Does callback contents takes appends lib (c_string s) w h slot)
            | int64 v ↦ λ before l w h p d slot.
                guarded-Does callback contents takes appends lib
                  (Json.write_number callback (lib.print_int v)) h
                  (write_number-Does callback contents takes appends lib (lib.print_int v) w p h
                    slot)
            | double v ↦ λ before l w h p d slot.
                guarded-Does callback contents takes appends lib
                  (Json.write_number callback (lib.print_double v)) h
                  (write_number-Does callback contents takes appends lib (lib.print_double v) w p h
                    slot)
            | bool b ↦ λ before l w h p d slot.
                guarded-Does callback contents takes appends lib (Json.write_bool callback b) h (
                  write_text-Does callback contents takes appends lib
                    (if b then true_text else false_text) w h slot)
            | null ↦ λ before l w h p d slot.
                guarded-Does callback contents takes appends lib (Json.write_null callback) h
                  (write_text-Does callback contents takes appends lib null_text w h slot)
            | no_fields ↦
                λ c w h p d i e. nothing-Does callback contents takes appends lib true c w h e
            | field key (k → ihj) (fs → ihf) ↦
                field-Does callback contents takes appends lib key k fs ihj ihf
            | no_items ↦
                λ c w h p d i e. nothing-Does callback contents takes appends lib false c w h e
            | item (k → ihj) (js → ihs) ↦ item-Does callback contents takes appends lib k js ihj ihs
          ]

  -- A tree whose numbers are printed, no deeper than 254, is written by a writer just made: the call
  -- succeeds, what the callback gathered is followed by exactly the text of the tree, the writer
  -- stands outside every object and array with no error, and has counted a value.
  pub write_json_lem :
      (memory : ℕ → Level) (u : U) (j : Value lib.Double)
      → printable lib j ≡ true
      → height j ≤ 254
      → (w : JsonWriter U) × (write_json callback lib j (Writer.init memory u) ≡ (true, w))
        × (contents w.userdata ≡ contents u ++ print lib j)
        × (w.depth_index ≡ 0)
        × (w.has_error ≡ false)
        × (1 ≤ w.count)
  unfolding Writer.init
  write_json_lem memory u j p d =
      let w0 = Writer.init memory u in
      let (w, e, q) =
        write_json-Does j [] (memory 0) w0 refl p (omega (arith, d)) (Slot.root refl refl) in
      (w, e, q.sent, q.same_index, q.no_error, q.counted)
