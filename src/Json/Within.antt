-- ===== src/Json/Within.antt =====
-- Calls that are nested leave a writer within its array.
use libnetq.Prelude.{
  and_true, ℕ, suc, ◌≤◌, ◌<◌, ◌≡◌, refl, List, [], ◌∷◌, Bool, true, false, not, ◌==◌, length, inr,
  arith,
}
use libnetq.Json.{
  Level, JsonWriter, M, ◌>>◌, current, write_key, write_object_begin, write_object_end,
  write_array_begin, write_array_end, object_begin, array_begin, object_end, array_end,
}
use libnetq.Json.Depth.{
  Keeps, then-Keeps, write_key-Keeps, write_string-Keeps, write_number-Keeps, write_text-Keeps,
}
use libnetq.Json.{Printf, c_string}
use libnetq.Json.Writer
use libnetq.Json.Writer.{guarded, settle, no_length}
use libnetq.Json.Value.{
  Value, object, array, string, int64, double, bool, null, no_fields, field, no_items, item,
  write_json, write_fields, write_items,
}
use libnetq.Json.Calls.{
  Call, perform, run, nested, allowed, open_after, begin_object, end_object, begin_array, end_array,
  put_null, put_char, put_string, put_string2, put_int, put_uint, put_double, put_bool, put_tree,
  put_key, begin_key_object, begin_key_array, put_key_null, put_key_char, put_key_string,
  put_key_string2, put_key_int, put_key_uint, put_key_double, put_key_bool,
}
use libnetq.Json.Nesting.{
  Moves, IsWithin, Steps, begin-Moves, end-Moves, guarded-Steps, kept-Steps, nothing-Steps,
  sized-Steps, and_also-Steps, and_then-Moves, Keeps-Moves,
}

module _ {U : Type 0} (callback : U → List ℕ → Bool × U) (lib : Printf) where
  object_begin-Steps : {n : ℕ} → Steps n (suc n) (Writer.write_object_begin callback lib)
  unfolding Writer.write_object_begin write_object_begin
  object_begin-Steps =
      guarded-Steps (write_object_begin callback) (begin-Moves callback true object_begin)

  object_end-Steps : {n n' : ℕ} → n ≡ suc n' → Steps n n' (Writer.write_object_end callback lib)
  unfolding Writer.write_object_end write_object_end
  object_end-Steps i =
      guarded-Steps (write_object_end callback)
        (λ w. end-Moves callback (not (current w).is_object) object_end w i)

  array_begin-Steps : {n : ℕ} → Steps n (suc n) (Writer.write_array_begin callback lib)
  unfolding Writer.write_array_begin write_array_begin
  array_begin-Steps =
      guarded-Steps (write_array_begin callback) (begin-Moves callback false array_begin)

  array_end-Steps : {n n' : ℕ} → n ≡ suc n' → Steps n n' (Writer.write_array_end callback lib)
  unfolding Writer.write_array_end write_array_end
  array_end-Steps i =
      guarded-Steps (write_array_end callback)
        (λ w. end-Moves callback (current w).is_object array_end w i)

  object_begin-Moves :
      {n : ℕ} (w : JsonWriter U)
      → w.depth_index ≤ 254
      → w.depth_index ≡ n
      → Moves (suc n) (write_object_begin callback w)
  unfolding write_object_begin
  object_begin-Moves w = begin-Moves callback true object_begin w

  array_begin-Moves :
      {n : ℕ} (w : JsonWriter U)
      → w.depth_index ≤ 254
      → w.depth_index ≡ n
      → Moves (suc n) (write_array_begin callback w)
  unfolding write_array_begin
  array_begin-Moves w = begin-Moves callback false array_begin w

  -- A key, and a step after it.
  key_then-Moves :
      {n n' : ℕ} (key : List ℕ) (k : M U)
      → ((w : JsonWriter U) → w.depth_index ≤ 254 → w.depth_index ≡ n → Moves n' (k w))
      → Steps n n' (guarded (write_key callback key >> k))
  key_then-Moves key k q = guarded-Steps (write_key callback key >> k) (λ w h e.
      and_then-Moves (write_key callback key w) k
        (Keeps-Moves (write_key callback key) (write_key-Keeps callback key) w h e) q)

  -- A key, and a step after it that keeps the index.
  key_then-Keeps : (key : List ℕ) (k : M U) → Keeps k → Keeps (write_key callback key >> k)
  key_then-Keeps key k p = then-Keeps (write_key callback key) k (write_key-Keeps callback key) p

  write_json-Steps : (j : Value lib.Double) (n : ℕ) → Steps n n (write_json callback lib j)
  unfolding write_json Writer.write_string Writer.write_int64 Writer.write_double Writer.write_bool
      Writer.write_null Writer.write_key
  write_json-Steps j =
      elim j
        as (λ j. (n : ℕ) → Steps n n (write_json callback lib j)) (λ fs.
          (n : ℕ) → Steps n n (write_fields callback lib fs)) (λ js.
            (n : ℕ) → Steps n n (write_items callback lib js)) [
              | object (fs → ih) ↦ λ n. and_also-Steps _ _ object_begin-Steps (
                  and_also-Steps (write_fields callback lib fs) _ (ih (suc n))
                    (object_end-Steps refl))
              | array (js → ih) ↦ λ n. and_also-Steps _ _ array_begin-Steps (
                  and_also-Steps (write_items callback lib js) _ (ih (suc n))
                    (array_end-Steps refl))
              | string s ↦ λ n. kept-Steps _ (write_string-Keeps callback (c_string s))
              | int64 v ↦ λ n. kept-Steps _ (write_number-Keeps callback (lib.print_int v))
              | double v ↦ λ n. kept-Steps _ (write_number-Keeps callback (lib.print_double v))
              | bool b ↦ λ n. kept-Steps _ (write_text-Keeps callback _)
              | null ↦ λ n. kept-Steps _ (write_text-Keeps callback _)
              | no_fields ↦ λ n. nothing-Steps
              | field key (k → ihk) (fs → ihf) ↦ λ n.
                  and_also-Steps _ _ (kept-Steps _ (write_key-Keeps callback (c_string key)))
                    (and_also-Steps (write_json callback lib k) _ (ihk n) (ihf n))
              | no_items ↦ λ n. nothing-Steps
              | item (k → ihk) (js → ihs) ↦
                  λ n. and_also-Steps (write_json callback lib k) _ (ihk n) (ihs n)
            ]

  perform-Steps :
      (c : Call lib.Double) (n : ℕ)
      → allowed c n ≡ true
      → Steps n (open_after c n) (perform callback lib c)
  unfolding Writer.write_object_begin Writer.write_object_end Writer.write_array_begin
      Writer.write_array_end Writer.write_null Writer.write_char Writer.write_string
      Writer.write_string2 Writer.write_int64 Writer.write_uint64 Writer.write_double
      Writer.write_bool Writer.write_key Writer.write_key_object_begin Writer.write_key_array_begin
      Writer.write_key_null Writer.write_key_char Writer.write_key_string Writer.write_key_string2
      Writer.write_key_int64 Writer.write_key_uint64 Writer.write_key_double Writer.write_key_bool
  perform-Steps begin_object n a = object_begin-Steps
  perform-Steps end_object n a = object_end-Steps (ground arith)
  perform-Steps begin_array n a = array_begin-Steps
  perform-Steps end_array n a = array_end-Steps (ground arith)
  perform-Steps put_null n a = kept-Steps _ (write_text-Keeps callback _)
  perform-Steps (put_char val) n a = kept-Steps _ (write_string-Keeps callback _)
  perform-Steps (put_string val) n a = kept-Steps _ (write_string-Keeps callback _)
  perform-Steps (put_string2 val) n a =
      sized-Steps (length val == no_length) _ (write_string-Keeps callback val)
  perform-Steps (put_int val) n a = kept-Steps _ (write_number-Keeps callback _)
  perform-Steps (put_uint val) n a = kept-Steps _ (write_number-Keeps callback _)
  perform-Steps (put_double val) n a = kept-Steps _ (write_number-Keeps callback _)
  perform-Steps (put_bool val) n a = kept-Steps _ (write_text-Keeps callback _)
  perform-Steps (put_tree j) n a = write_json-Steps j n
  perform-Steps (put_key key) n a = kept-Steps _ (write_key-Keeps callback (c_string key))
  perform-Steps (begin_key_object key) n a =
      key_then-Moves (c_string key) (write_object_begin callback) object_begin-Moves
  perform-Steps (begin_key_array key) n a =
      key_then-Moves (c_string key) (write_array_begin callback) array_begin-Moves
  perform-Steps (put_key_null key) n a =
      kept-Steps _ (key_then-Keeps (c_string key) _ (write_text-Keeps callback _))
  perform-Steps (put_key_char key val) n a =
      kept-Steps _ (key_then-Keeps (c_string key) _ (write_string-Keeps callback _))
  perform-Steps (put_key_string key val) n a =
      kept-Steps _ (key_then-Keeps (c_string key) _ (write_string-Keeps callback _))
  perform-Steps (put_key_string2 key val) n a =
      sized-Steps (length val == no_length) _
        (key_then-Keeps (c_string key) _ (write_string-Keeps callback val))
  perform-Steps (put_key_int key val) n a =
      kept-Steps _ (key_then-Keeps (c_string key) _ (write_number-Keeps callback _))
  perform-Steps (put_key_uint key val) n a =
      kept-Steps _ (key_then-Keeps (c_string key) _ (write_number-Keeps callback _))
  perform-Steps (put_key_double key val) n a =
      kept-Steps _ (key_then-Keeps (c_string key) _ (write_number-Keeps callback _))
  perform-Steps (put_key_bool key val) n a =
      kept-Steps _ (key_then-Keeps (c_string key) _ (write_text-Keeps callback _))

  run-Within :
      (cs : List (Call lib.Double)) (n : ℕ) (w : JsonWriter U)
      → nested cs n ≡ true
      → IsWithin n w
      → (run callback lib cs w).1.depth_index ≤ 254
  run-Within [] n w h p = p.0
  run-Within (c ∷ cs) n w h p =
      let (hc, hcs) = and_true (allowed c n) _ h in
      run-Within cs (open_after c n) (perform callback lib c w).1 hcs
        ((perform-Steps c n hc).step w p)

  -- Whatever is called, with whatever success and whatever the callback does: when no call ends an
  -- object or an array where none is open, the index of the writer is one of its 255 levels.
  pub depth_index-bound :
      (memory : ℕ → Level) (u : U) (cs : List (Call lib.Double))
      → nested cs 0 ≡ true
      → (run callback lib cs (Writer.init memory u)).1.depth_index < 255
  unfolding Writer.init
  depth_index-bound memory u cs h =
      let p = run-Within cs 0 (Writer.init memory u) h (omega arith, inr refl) in omega (arith, p)
