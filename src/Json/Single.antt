-- ===== src/Json/Single.antt =====
-- One call that writes a key or a value without parts.
use libnetq.Prelude.{
  ℕ, suc, ◌≤◌, ◌≡◌, refl, sym, ap, ◌∙◌, List, [], ◌++◌, append-nil, Option, none, some, Bool, true,
  false, not, leb, if◌then◌else◌, length, arith,
}
use libnetq.Json
use libnetq.Json.{
  Level, Printf, JsonWriter, M, and_then, ◌>>◌, modify, current, set_current, count_one, update,
  write_impl, comma, colon, quote_mark, write_escape, write_key_delimiter, write_val_delimiter,
  write_string, write_formatted, write_number, write_text, entered, left, c_string, object_begin,
  object_end, array_begin, array_end,
}
use libnetq.Json.Writer.{guarded, settle}
use libnetq.Json.Print.{digits, fits, separator}
use libnetq.Json.Steps.{quote-Sends, quoted}
use libnetq.Json.Settle.{After, Does, and_then-Does}
use libnetq.Json.Delimit.{
  level, Slot, Sends-Does, send-Does, Does-congr, write_val_delimiter-Does,
  write_key_delimiter-Does,
}

module _ {U : Type 0} (callback : U → List ℕ → Bool × U) (contents : U → List ℕ)
    (takes : (u : U) (s : List ℕ) → (callback u s).0 ≡ true)
    (appends : (u : U) (s : List ℕ) → contents (callback u s).1 ≡ contents u ++ s)
    (lib : Printf) where
  count_one-Does :
      (w : JsonWriter U) → w.has_error ≡ false → Does contents (count_one w) w [] (current w) 1
  count_one-Does w h = (
    record w { count = suc w.count },
    refl,
    record {
      sent = sym (append-nil _);
      no_error = h;
      same_index = refl;
      counted = omega arith;
      settled_level = refl;
      below = λ i k. refl;
    },
  )

  -- The current level of a writer that a step has left.
  pub left_level :
      {w w' : JsonWriter U} {t : List ℕ} {l : Level} {n : ℕ}
      → After contents w w' t l n
      → current w' ≡ l
  left_level {w' = w'} p = ap w'.depth p.same_index ∙ p.settled_level

  -- A delimiter, something that keeps the level, and the count.
  value-Does :
      (m : M U) (text : List ℕ)
      → ((w : JsonWriter U) → w.has_error ≡ false → Does contents (m w) w text (current w) 0)
      → {before : List ℕ} {l : Level} (w : JsonWriter U) → w.has_error ≡ false
      → Slot w before l
      → Does contents ((write_val_delimiter callback >> m >> count_one) w) w (before ++ text) l 1
  value-Does m text sends w h s =
      Does-congr callback contents takes appends refl (append-nil _) refl (
        and_then-Does contents _
          (and_then-Does contents _ (write_val_delimiter-Does callback contents takes appends w h s)
            (λ w' p.
              Does-congr callback contents takes appends refl refl (left_level p)
                (sends w' p.no_error)))
          (λ w' p.
            Does-congr callback contents takes appends refl refl (left_level p)
              (count_one-Does w' p.no_error)))

  pub guarded-Does :
      (m : M U) {w : JsonWriter U} {t : List ℕ} {l : Level} {n : ℕ}
      → w.has_error ≡ false
      → Does contents (m w) w t l n
      → Does contents (guarded m w) w t l n
  unfolding guarded
  guarded-Does m {w} h (w', e, p) =
      (w', ap (λ b. if b then (false, w) else settle (m w)) h ∙ ap settle e, p)

  quote : List ℕ → M U
  quote s =
      write_impl callback quote_mark >> write_escape callback s >> write_impl callback quote_mark

  quoted_then :
      (r : Bool × JsonWriter U) (s : List ℕ)
      → and_then
          (and_then (and_then r (write_impl callback quote_mark)) (write_escape callback s))
          (write_impl callback quote_mark)
        ≡ and_then r (quote s)
  unfolding quote
  quoted_then (true, w) s = refl
  quoted_then (false, w) s = refl

  quote-Does :
      (s : List ℕ) (w : JsonWriter U)
      → w.has_error ≡ false
      → Does contents (quote s w) w (quoted s) (current w) 0
  unfolding quote
  quote-Does s w h =
      Sends-Does callback contents takes appends h (quote-Sends callback contents takes appends s w)

  pub write_string-Does :
      (s : List ℕ) {before : List ℕ} {l : Level} (w : JsonWriter U)
      → w.has_error ≡ false
      → Slot w before l
      → Does contents (write_string callback s w) w (before ++ quoted s) l 1
  unfolding write_string
  write_string-Does s w h slot =
      Does-congr callback contents takes appends
        (ap (λ r. and_then r count_one) (quoted_then (write_val_delimiter callback w) s)) refl refl
        (value-Does (quote s) (quoted s) (quote-Does s) w h slot)

  pub write_text-Does :
      (text : List ℕ) {before : List ℕ} {l : Level} (w : JsonWriter U)
      → w.has_error ≡ false
      → Slot w before l
      → Does contents (write_text callback text w) w (before ++ text) l 1
  unfolding write_text
  write_text-Does text w h slot =
      value-Does (write_impl callback text) text
        (λ w h. send-Does callback contents takes appends w text h) w h slot

  write_formatted-Does :
      (printed : Option (List ℕ)) (w : JsonWriter U)
      → fits printed ≡ true
      → w.has_error ≡ false
      → Does contents (write_formatted callback printed w) w (digits printed) (current w) 0
  unfolding write_formatted
  write_formatted-Does none w f h = absurd (cc)
  write_formatted-Does (some buf) w f h =
      let short : leb 32 (length buf) ≡ false = ground arith in
      Does-congr callback contents takes appends
        (ap (λ b. if b then (false, w) else write_impl callback buf w) short) refl refl
        (send-Does callback contents takes appends w buf h)

  pub write_number-Does :
      (printed : Option (List ℕ)) {before : List ℕ} {l : Level} (w : JsonWriter U)
      → fits printed ≡ true
      → w.has_error ≡ false
      → Slot w before l
      → Does contents (write_number callback printed w) w (before ++ digits printed) l 1
  unfolding write_number
  write_number-Does printed w f h slot =
      value-Does (write_formatted callback printed) (digits printed)
        (λ w h. write_formatted-Does printed w f h) w h slot

  pub write_key-Does :
      (s : List ℕ) (c : Bool) (w : JsonWriter U)
      → w.has_error ≡ false
      → 1 ≤ w.depth_index
      → current w ≡ level true c false
      → Does contents
          (Json.write_key callback s w)
          w
          (separator c ++ quoted s)
          (level true c true)
          0
  unfolding Json.write_key
  write_key-Does s c w h i e =
      let object : (current w).is_object ≡ true = ap (λ l. l.is_object) e in
      let quoted_key =
        and_then
          (and_then (and_then (write_key_delimiter callback w) (write_impl callback quote_mark))
            (write_escape callback s))
          (write_impl callback quote_mark) in
      Does-congr callback contents takes appends
        (ap (λ b. if not b then (false, w) else quoted_key) object
          ∙ quoted_then (write_key_delimiter callback w) s)
        refl refl
        (and_then-Does contents _
          (write_key_delimiter-Does callback contents takes appends c w h i e)
          (λ w' p.
            Does-congr callback contents takes appends refl refl (left_level p)
              (quote-Does s w' p.no_error)))
