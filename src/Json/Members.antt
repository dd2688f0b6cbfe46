-- ===== src/Json/Members.antt =====
-- Writing the fields of an object and the items of an array.
use libnetq.Prelude.{
  and_true, ℕ, ◌+◌, ◌≤◌, ◌≡◌, refl, ap, ◌∙◌, List, [], ◌++◌, Bool, true, false, ◌&&◌, if◌then◌else◌,
  arith,
}
use libnetq.Json
use libnetq.Json.{
  Level, Printf, JsonWriter, M, and_then, ◌>>◌, modify, current, set_current, count_one, update,
  write_impl, comma, colon, quote_mark, write_escape, write_key_delimiter, write_val_delimiter,
  write_string, write_formatted, write_number, write_text, entered, left, c_string, object_begin,
  object_end, null_text, true_text, false_text, array_begin, array_end,
}
use libnetq.Json.Writer
use libnetq.Json.Writer.{guarded, settle}
use libnetq.Json.Value.{
  Value, Fields, Items, field, item, and_also, nothing_more, write_json, write_fields, write_items,
}
use libnetq.Json.Print.{
  separator, print, print_fields, print_items, printable, printable_fields, printable_items, height,
  height_fields, height_items,
}
use libnetq.Json.Settle.{Does, After-trans, After-weaken}
use libnetq.Json.Single.{guarded-Does, write_key-Does, left_level}
use libnetq.Json.Delimit.{level, idle-Does, Slot, Does-congr}

module _ {U : Type 0} (callback : U → List ℕ → Bool × U) (contents : U → List ℕ)
    (takes : (u : U) (s : List ℕ) → (callback u s).0 ≡ true)
    (appends : (u : U) (s : List ℕ) → contents (callback u s).1 ≡ contents u ++ s)
    (lib : Printf) where
  pub and_also_lem :
      (m k : M U) (w : JsonWriter U) {w1 w2 : JsonWriter U}
      → m w ≡ (true, w1)
      → k w1 ≡ (true, w2)
      → and_also m k w ≡ (true, w2)
  and_also_lem m k w e f =
      ap (λ r. (r.0 && (k r.1).0, (k r.1).1)) e ∙ ap (λ r. (true && r.0, r.1)) f

  pub guarded_lem :
      (m : M U) (w : JsonWriter U) {w' : JsonWriter U}
      → w.has_error ≡ false
      → m w ≡ (true, w')
      → guarded m w ≡ (true, w')
  unfolding guarded
  guarded_lem m w h e = ap (λ b. if b then (false, w) else settle (m w)) h ∙ ap settle e

  -- What a tree, the fields of an object and the items of an array do.
  abbrev pub DoesValue : Value lib.Double → Type 0
  DoesValue j =
      (before : List ℕ) (l : Level) (w : JsonWriter U)
      → w.has_error ≡ false
      → printable lib j ≡ true
      → w.depth_index + height j ≤ 254
      → Slot w before l
      → Does contents (write_json callback lib j w) w (before ++ print lib j) l 1

  abbrev pub DoesFields : Fields lib.Double → Type 0
  DoesFields fs =
      (c : Bool) (w : JsonWriter U)
      → w.has_error ≡ false
      → printable_fields lib fs ≡ true
      → w.depth_index + height_fields fs ≤ 254
      → 1 ≤ w.depth_index
      → current w ≡ level true c false
      → (c' : Bool) × Does contents (write_fields callback lib fs w) w (print_fields lib c fs)
          (level true c' false) 0

  abbrev pub DoesItems : Items lib.Double → Type 0
  DoesItems js =
      (c : Bool) (w : JsonWriter U)
      → w.has_error ≡ false
      → printable_items lib js ≡ true
      → w.depth_index + height_items js ≤ 254
      → 1 ≤ w.depth_index
      → current w ≡ level false c false
      → (c' : Bool) × Does contents (write_items callback lib js w) w (print_items lib c js)
          (level false c' false) 0

  pub field-Does :
      (key : List ℕ) (j : Value lib.Double) (fs : Fields lib.Double)
      → DoesValue j
      → DoesFields fs
      → DoesFields (field key j fs)
  unfolding write_json print printable height Writer.write_key
  field-Does key j fs ihj ihf c w h p d i e =
      let name = c_string key in
      let value = write_json callback lib j in
      let more = write_fields callback lib fs in
      let (pj, pf) = and_true _ _ p in
      let (w1, e1, q1) =
        guarded-Does callback contents takes appends lib (Json.write_key callback name) h
          (write_key-Does callback contents takes appends lib name c w h i e) in
      let keyed = left_level callback contents takes appends lib q1 in
      let (w2, e2, q2) =
        ihj colon (level true true false) w1 q1.no_error pj (omega (arith, q1.same_index))
          (Slot.member c (omega (arith, q1.same_index)) keyed) in
      let (c', (w3, e3, q3)) =
        ihf true w2 q2.no_error pf (omega (arith, q1.same_index, q2.same_index))
          (omega (arith, q1.same_index, q2.same_index))
          (left_level callback contents takes appends lib q2) in
      (
        c',
        (
          w3,
          and_also_lem (Writer.write_key callback lib key) (and_also value more) w e1
              (and_also_lem value more w1 e2 e3),
          After-weaken contents (omega arith)
              (After-trans contents q1 (After-trans contents q2 q3)),
        ),
      )

  pub item-Does :
      (j : Value lib.Double) (js : Items lib.Double)
      → DoesValue j
      → DoesItems js
      → DoesItems (item j js)
  unfolding write_json print printable height
  item-Does j js ihj ihs c w h p d i e =
      let (pj, ps) = and_true _ _ p in
      let (w1, e1, q1) =
        ihj (separator c) (level false true false) w h pj (omega arith) (Slot.element c i e) in
      let (c', (w2, e2, q2)) =
        ihs true w1 q1.no_error ps (omega (arith, q1.same_index)) (omega (arith, q1.same_index))
          (left_level callback contents takes appends lib q1) in
      (
        c',
        (
          w2,
          and_also_lem (write_json callback lib j) (write_items callback lib js) w e1 e2,
          After-weaken contents (omega arith) (After-trans contents q1 q2),
        ),
      )

  pub nothing-Does :
      (o c : Bool) (w : JsonWriter U)
      → w.has_error ≡ false
      → current w ≡ level o c false
      → (c' : Bool) × Does contents (nothing_more w) w [] (level o c' false) 0
  nothing-Does o c w h e = (
    c,
    Does-congr callback contents takes appends refl refl e
        (idle-Does callback contents takes appends w h),
  )
