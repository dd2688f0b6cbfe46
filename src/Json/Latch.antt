-- ===== src/Json/Latch.antt =====
-- A writer after an error.
use libnetq.Prelude.{
  and_true, ℕ, ◌≡◌, refl, sym, ap, ◌∙◌, List, [], ◌∷◌, Bool, true, false, not, ◌==◌, ◌&&◌,
  if◌then◌else◌, length, Bool-cases, inl, inr, arith,
}
use mathlib.Core.Path.{subst}
use libnetq.Json.{Printf, JsonWriter, M}
use libnetq.Json.Writer
use libnetq.Json.Writer.{guarded, settle, no_length}
use libnetq.Json.Value.{
  Value, object, array, string, int64, double, bool, null, no_fields, field, no_items, item,
  and_also, write_json, write_fields, write_items,
}
use libnetq.Json.Calls.{
  Call, perform, run, has_length, begin_object, end_object, begin_array, end_array, put_null,
  put_char, put_string, put_string2, put_int, put_uint, put_double, put_bool, put_tree, put_key,
  begin_key_object, begin_key_array, put_key_null, put_key_char, put_key_string, put_key_string2,
  put_key_int, put_key_uint, put_key_double, put_key_bool,
}

abbrev pub refusals : {A : Type 0} → List A → List Bool
refusals [] = []
refusals (c ∷ cs) = false ∷ refusals cs

abbrev pub all_has_length : {D : Type 0} → List (Call D) → Bool
all_has_length [] = true
all_has_length (c ∷ cs) = has_length c && all_has_length cs

abbrev answered : {A : Type 0} → Bool → List Bool × A → List Bool × A
answered a r = (a ∷ r.0, r.1)

answer_cons :
    {A : Type 0} {a b : Bool} {r s : List Bool × A} → a ≡ b → r ≡ s → answered a r ≡ answered b s
answer_cons {b = b} {r = r} p q = ap (λ a. answered a r) p ∙ ap (answered b) q

-- A step that records an error when it refuses, and that changes nothing after one.
abbrev Settles : {U : Type 0} → M U → Type 0
Settles {U} m =
    (w : JsonWriter U)
    → ((m w).0 ≡ false → (m w).1.has_error ≡ true) × (w.has_error ≡ true → (m w).1 ≡ w)

-- A step that also refuses after an error.
abbrev Latches : {U : Type 0} → M U → Type 0
Latches {U} m = Settles m × ((w : JsonWriter U) → w.has_error ≡ true → (m w).0 ≡ false)

module _ {U : Type 0} where
  settle_unsuccessful :
      (r : Bool × JsonWriter U) → (settle r).0 ≡ false → (settle r).1.has_error ≡ true
  settle_unsuccessful (true, w) h = absurd (cc)
  settle_unsuccessful (false, w) h = refl

  guarded-Latches : (m : M U) → Latches (guarded m)
  unfolding guarded
  guarded-Latches m =
      let stopped : (w : JsonWriter U) → w.has_error ≡ true → guarded m w ≡ (false, w) =
        λ w e. ap (λ b. if b then (false, w) else settle (m w)) e in
      (
        λ w. (
          λ h. elim (Bool-cases w.has_error) [
            | inl e ↦ ap (λ r. r.1.has_error) (stopped w e) ∙ e
            | inr e ↦
                let going : guarded m w ≡ settle (m w) =
                  ap (λ b. if b then (false, w) else settle (m w)) e in
                ap (λ r. r.1.has_error) going
                ∙ settle_unsuccessful (m w) (ap (λ r. r.0) (sym going) ∙ h)
          ],
          λ e. ap (λ r. r.1) (stopped w e),
        ),
        λ w e. ap (λ r. r.0) (stopped w e),
      )

  and_also-Settles : (m k : M U) → Settles m → Settles k → Settles (and_also m k)
  and_also-Settles m k p q w = (
    λ h. elim (Bool-cases (m w).0) [
      | inl e ↦ (q (m w).1).0 (ap (λ a. a && (k (m w).1).0) (sym e) ∙ h)
      | inr e ↦ let err = (p w).0 e in ap (λ w. w.has_error) ((q (m w).1).1 err) ∙ err
    ],
    λ e. (q (m w).1).1 (ap (λ w. w.has_error) ((p w).1 e) ∙ e) ∙ (p w).1 e,
  )

  and_also-Latches : (m k : M U) → Latches m → Settles k → Latches (and_also m k)
  and_also-Latches m k p q =
      (and_also-Settles m k p.0 q, λ w e. ap (λ a. a && (k (m w).1).0) (p.1 w e))

module _ {U : Type 0} (callback : U → List ℕ → Bool × U) (lib : Printf) where
  write_json-Latches : (j : Value lib.Double) → Latches (write_json callback lib j)
  unfolding write_json Writer.write_object_begin Writer.write_object_end Writer.write_array_begin
      Writer.write_array_end Writer.write_string Writer.write_int64 Writer.write_double
      Writer.write_bool Writer.write_null Writer.write_key
  write_json-Latches j =
      elim j
        as (λ j. Latches (write_json callback lib j)) (λ fs.
          Settles (write_fields callback lib fs)) (λ js. Settles (write_items callback lib js)) [
            | object (fs → ih) ↦
                and_also-Latches _ _ (guarded-Latches _)
                  (and_also-Settles _ _ ih (guarded-Latches _).0)
            | array (js → ih) ↦
                and_also-Latches _ _ (guarded-Latches _)
                  (and_also-Settles _ _ ih (guarded-Latches _).0)
            | string s ↦ guarded-Latches _
            | int64 v ↦ guarded-Latches _
            | double v ↦ guarded-Latches _
            | bool b ↦ guarded-Latches _
            | null ↦ guarded-Latches _
            | no_fields ↦ λ w. (λ h. absurd (cc), λ e. refl)
            | field key (k → ihk) (fs → ihf) ↦
                and_also-Settles _ _ (guarded-Latches _).0 (and_also-Settles _ _ ihk.0 ihf)
            | no_items ↦ λ w. (λ h. absurd (cc), λ e. refl)
            | item (k → ihk) (js → ihs) ↦ and_also-Settles _ _ ihk.0 ihs
          ]

  -- A string whose length is given.
  sized-Latches :
      (val : List ℕ) (m : M U)
      → not (length val == no_length) ≡ true
      → Latches (λ w. if length val == no_length then (false, w) else guarded m w)
  sized-Latches val m h =
      let given : (length val == no_length) ≡ false = ground arith in
      subst (λ b. Latches (λ w. if b then (false, w) else guarded m w)) (sym given)
        (guarded-Latches m)

  perform-Latches : (c : Call lib.Double) → has_length c ≡ true → Latches (perform callback lib c)
  unfolding Writer.write_object_begin Writer.write_object_end Writer.write_array_begin
      Writer.write_array_end Writer.write_null Writer.write_char Writer.write_string
      Writer.write_string2 Writer.write_int64 Writer.write_uint64 Writer.write_double
      Writer.write_bool Writer.write_key Writer.write_key_object_begin Writer.write_key_array_begin
      Writer.write_key_null Writer.write_key_char Writer.write_key_string Writer.write_key_string2
      Writer.write_key_int64 Writer.write_key_uint64 Writer.write_key_double Writer.write_key_bool
  perform-Latches (put_tree j) h = write_json-Latches j
  perform-Latches (put_string2 val) h = sized-Latches val _ h
  perform-Latches (put_key_string2 key val) h = sized-Latches val _ h
  perform-Latches begin_object h = guarded-Latches _
  perform-Latches end_object h = guarded-Latches _
  perform-Latches begin_array h = guarded-Latches _
  perform-Latches end_array h = guarded-Latches _
  perform-Latches put_null h = guarded-Latches _
  perform-Latches (put_char val) h = guarded-Latches _
  perform-Latches (put_string val) h = guarded-Latches _
  perform-Latches (put_int val) h = guarded-Latches _
  perform-Latches (put_uint val) h = guarded-Latches _
  perform-Latches (put_double val) h = guarded-Latches _
  perform-Latches (put_bool val) h = guarded-Latches _
  perform-Latches (put_key key) h = guarded-Latches _
  perform-Latches (begin_key_object key) h = guarded-Latches _
  perform-Latches (begin_key_array key) h = guarded-Latches _
  perform-Latches (put_key_null key) h = guarded-Latches _
  perform-Latches (put_key_char key val) h = guarded-Latches _
  perform-Latches (put_key_string key val) h = guarded-Latches _
  perform-Latches (put_key_int key val) h = guarded-Latches _
  perform-Latches (put_key_uint key val) h = guarded-Latches _
  perform-Latches (put_key_double key val) h = guarded-Latches _
  perform-Latches (put_key_bool key val) h = guarded-Latches _

  run-latched :
      (cs : List (Call lib.Double)) (w : JsonWriter U)
      → all_has_length cs ≡ true
      → w.has_error ≡ true
      → run callback lib cs w ≡ (refusals cs, w)
  run-latched [] w h e = refl
  run-latched (c ∷ cs) w h e =
      let (hc, hcs) = and_true _ _ h in
      let p = perform-Latches c hc in
      answer_cons (p.1 w e) (ap (run callback lib cs) ((p.0 w).1 e) ∙ run-latched cs w hcs e)

  -- Once a call answers false, all the calls after it do, and the writer stays as that call left
  -- it, whatever the callback does. The strings given with a length do not have the length that is
  -- the mark for none.
  pub run-refusals :
      (c : Call lib.Double) (cs : List (Call lib.Double)) (w : JsonWriter U)
      → all_has_length (c ∷ cs) ≡ true
      → (perform callback lib c w).0 ≡ false
      → run callback lib (c ∷ cs) w ≡ (refusals (c ∷ cs), (perform callback lib c w).1)
  run-refusals c cs w h e =
      let (hc, hcs) = and_true _ _ h in
      let w1 = (perform callback lib c w).1 in
      answer_cons e (run-latched cs w1 hcs (((perform-Latches c hc).0 w).0 e))
