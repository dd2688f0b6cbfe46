-- ===== src/Json/Dangling.antt =====
-- Calls that succeed and leave a text that is no JSON.
use libnetq.Prelude.{
  ℕ, ◌+◌, ◌%◌, ◌≡◌, refl, ap, ◌∙◌, List, [], ◌∷◌, ◌++◌, Bool, true, false, not, if◌then◌else◌,
  arith,
}
use libnetq.Json
use libnetq.Json.{
  Level, Printf, JsonWriter, M, and_then, ◌>>◌, modify, current, set_current, count_one, update,
  write_impl, comma, colon, quote_mark, write_escape, write_key_delimiter, write_val_delimiter,
  write_string, write_formatted, write_number, write_text, entered, left, c_string, object_begin,
  object_end, null_text, true_text, false_text, array_begin, array_end,
}
use libnetq.Json.Writer
use libnetq.Json.Writer.{guarded, settle}
use libnetq.Json.Steps.{quoted}
use libnetq.Json.Single.{guarded-Does, write_key-Does, left_level}
use libnetq.Json.Brackets.{enter, leave}
use libnetq.Json.Delimit.{Slot, send-Does}
use libnetq.Json.Members.{guarded_lem}
use libnetq.Json.Calls.{Call, run, perform, begin_object, put_key, end_object, end_array}

module _ {U : Type 0} (callback : U → List ℕ → Bool × U) (contents : U → List ℕ)
    (takes : (u : U) (s : List ℕ) → (callback u s).0 ≡ true)
    (appends : (u : U) (s : List ℕ) → contents (callback u s).1 ≡ contents u ++ s)
    (lib : Printf) where
  abbrev before :
      Call lib.Double → List (Call lib.Double) → Bool × JsonWriter U → List Bool × JsonWriter U
  before c cs r = let (rest, w) = run callback lib cs r.1 in (r.0 ∷ rest, w)

  abbrev answered : Bool → List Bool × JsonWriter U → List Bool × JsonWriter U
  answered a r = (a ∷ r.0, r.1)

  run_cons :
      (c : Call lib.Double) (cs : List (Call lib.Double)) (w : JsonWriter U) {w1 w2 : JsonWriter U}
      {a : Bool} {rest : List Bool}
      → perform callback lib c w ≡ (a, w1)
      → run callback lib cs w1 ≡ (rest, w2)
      → run callback lib (c ∷ cs) w ≡ (a ∷ rest, w2)
  run_cons c cs w {a = a} e f = ap (before c cs) e ∙ ap (answered a) f

  -- An object that is ended behind a key, with no value, is written as it stands and no call answers
  -- false.
  pub run-end_object_key :
      (memory : ℕ → Level) (u : U) (key : List ℕ)
      → (w : JsonWriter U) × (run callback lib
            (begin_object ∷ put_key key ∷ end_object ∷ [])
            (Writer.init memory u)
          ≡ (true ∷ true ∷ true ∷ [], w))
        × (contents w.userdata
            ≡ contents u ++ (object_begin ++ (quoted (c_string key) ++ object_end)))
  unfolding Writer.init Writer.write_object_begin Writer.write_object_end Writer.write_key
      Json.write_object_begin Json.write_object_end
  run-end_object_key memory u key =
      let w0 = Writer.init memory u in
      let name = c_string key in
      let (w1, e1, q1) =
        enter callback contents takes appends true object_begin w0 refl (omega arith)
          (Slot.root refl refl) in
      let (w2, e2, q2) =
        guarded-Does callback contents takes appends lib (Json.write_key callback name) q1.no_error
          (write_key-Does callback contents takes appends lib name false w1 q1.no_error
            (omega (arith, q1.deeper)) q1.inner_level) in
      let (w3, e3, q3) = leave callback contents takes appends object_end (omega arith) q1 q2 in
      let inside : (current w2).is_object ≡ true =
        ap (λ l. l.is_object) (left_level callback contents takes appends lib q2) in
      let closing = (write_impl callback object_end >> modify left) w2 in
      let f1 =
        guarded_lem callback contents takes appends lib (Json.write_object_begin callback) w0 refl
          e1 in
      let f3 =
        guarded_lem callback contents takes appends lib (Json.write_object_end callback) w2
          q2.no_error (ap (λ b. if not b then (false, w2) else closing) inside ∙ e3) in
      (
        w3,
        run_cons begin_object (put_key key ∷ end_object ∷ []) w0 f1
            (run_cons (put_key key) (end_object ∷ []) w1 e2 (run_cons end_object [] w2 f3 refl)),
        q3.sent,
      )

  -- Where the level that is not initialised is no object, an array is ended that was not begun: the
  -- bracket is written, the call succeeds, and the index is 65535.
  pub run-end_array_unopened :
      (memory : ℕ → Level) (u : U)
      → (memory 0).is_object ≡ false
      → (w : JsonWriter U) × (run callback lib (end_array ∷ []) (Writer.init memory u)
          ≡ (true ∷ [], w))
        × (contents w.userdata ≡ contents u ++ array_end)
        × (w.depth_index ≡ 65535)
  unfolding Writer.init Writer.write_array_end Json.write_array_end
  run-end_array_unopened memory u h =
      let w0 = Writer.init memory u in
      let (w', e, p) = send-Does callback contents takes appends w0 array_end refl in
      let closing = (write_impl callback array_end >> modify left) w0 in
      let closed : Json.write_array_end callback w0 ≡ (true, left w') =
        ap (λ b. if b then (false, w0) else closing) h ∙ ap (λ r. and_then r (modify left)) e in
      (
        left w',
        run_cons end_array [] w0
            (guarded_lem callback contents takes appends lib (Json.write_array_end callback) w0 refl
              closed)
            refl,
        p.sent,
        ap (λ i. (i + 65535) % 65536) p.same_index,
      )
