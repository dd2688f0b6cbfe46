-- ===== src/Json/Depth.antt =====
-- How deep a writer stands behind a call.
use libnetq.Prelude.{
  ℕ, ◌≡◌, refl, ◌∙◌, List, [], ◌∷◌, ◌++◌, Option, none, some, Bool, true, false, not, ◌==◌, leb,
  if◌then◌else◌, length,
}
use libnetq.Json.{
  Level, JsonWriter, M, and_then, ◌>>◌, modify, current, set_current, count_one, escape_of,
  escape_step, write_impl, escape_loop, comma, colon, quote_mark, write_key_delimiter,
  write_val_delimiter, write_key, write_string, write_formatted, write_number, write_text,
}

-- The index is `n` behind a step, whatever it answers.
pub record Stands {U : Type 0} (n : ℕ) (r : Bool × JsonWriter U) : Type 0 where
  pub same : r.1.depth_index ≡ n

abbrev pub Keeps : {U : Type 0} → M U → Type 0
Keeps {U} m = (w : JsonWriter U) → Stands w.depth_index (m w)

module _ {U : Type 0} where
  pub here : {n : ℕ} (a : Bool) (w : JsonWriter U) → w.depth_index ≡ n → Stands n (a, w)
  here a w e = record { same = e }

  and_then-Stands :
      {n : ℕ} (r : Bool × JsonWriter U) (k : M U) → Stands n r → Keeps k → Stands n (and_then r k)
  and_then-Stands (true, w) k p q = record { same = (q w).same ∙ p.same }
  and_then-Stands (false, w) k p q = p

  if-Stands :
      {n : ℕ} (b : Bool) (r s : Bool × JsonWriter U)
      → Stands n r
      → Stands n s
      → Stands n (if b then r else s)
  if-Stands true r s p q = p
  if-Stands false r s p q = q

  pub then-Keeps : (m k : M U) → Keeps m → Keeps k → Keeps (m >> k)
  then-Keeps m k p q w = and_then-Stands (m w) k (p w) q

  set-Keeps : (f : Level → Level) → Keeps {U = U} (modify (λ w. set_current (f (current w)) w))
  set-Keeps f w = here true _ refl

module _ {U : Type 0} (callback : U → List ℕ → Bool × U) where
  pub write_impl-Keeps : (s : List ℕ) → Keeps (write_impl callback s)
  unfolding write_impl
  write_impl-Keeps [] w = here true w refl
  write_impl-Keeps (c ∷ cs) w = record { same = refl }

  escape_step-Keeps :
      (next : List ℕ → M U) (o : Option (List ℕ)) (c : ℕ) (pending : List ℕ)
      → ((pending : List ℕ) → Keeps (next pending))
      → Keeps (escape_step callback next o c pending)
  escape_step-Keeps next none c pending k = k (pending ++ c ∷ [])
  escape_step-Keeps next (some buf) c pending k =
      let first = write_impl callback pending in
      let second = write_impl callback buf in
      then-Keeps (first >> second) (next [])
        (then-Keeps first second (write_impl-Keeps pending) (write_impl-Keeps buf)) (k [])

  escape_loop-Keeps : (s pending : List ℕ) → Keeps (escape_loop callback s pending)
  unfolding escape_loop
  escape_loop-Keeps [] pending = write_impl-Keeps pending
  escape_loop-Keeps (c ∷ cs) pending =
      escape_step-Keeps (escape_loop callback cs) (escape_of c) c pending (escape_loop-Keeps cs)

  write_key_delimiter-Keeps : Keeps (write_key_delimiter callback)
  unfolding write_key_delimiter
  write_key_delimiter-Keeps w =
      let refused = here false w refl in
      if-Stands (w.depth_index == 0) _ _ refused (
        if-Stands (not (current w).is_object) _ _ refused (
          if-Stands (current w).has_key _ _ refused (
            and_then-Stands _ _
              (if-Stands (current w).has_child _ _ (write_impl-Keeps comma w) (here true w refl))
              (set-Keeps (λ l. record l { has_key = true })))))

  pub write_val_delimiter-Keeps : Keeps (write_val_delimiter callback)
  unfolding write_val_delimiter
  write_val_delimiter-Keeps w = if-Stands (w.depth_index == 0) _ _ (here (w.count == 0) w refl) (
      and_then-Stands _ _
        (if-Stands (current w).is_object _ _
          (if-Stands (not (current w).has_key) _ _ (here false w refl) (
            and_then-Stands _ _ (write_impl-Keeps colon w)
              (set-Keeps (λ l. record l { has_key = false }))))
          (if-Stands (current w).has_child _ _ (write_impl-Keeps comma w) (here true w refl)))
        (set-Keeps (λ l. record l { has_child = true })))

  -- A string between its marks, after `before`.
  quote-Keeps :
      (before : M U) (s : List ℕ)
      → Keeps before
      → Keeps (
          before
          >> write_impl callback quote_mark
          >> escape_loop callback s []
          >> write_impl callback quote_mark)
  quote-Keeps before s p =
      let mark = write_impl callback quote_mark in
      let opened = before >> mark in
      then-Keeps (opened >> escape_loop callback s []) mark
        (then-Keeps opened (escape_loop callback s [])
          (then-Keeps before mark p (write_impl-Keeps quote_mark)) (escape_loop-Keeps s []))
        (write_impl-Keeps quote_mark)

  pub write_key-Keeps : (s : List ℕ) → Keeps (write_key callback s)
  unfolding write_key
  write_key-Keeps s w =
      if-Stands (not (current w).is_object) _ _ (here false w refl)
        (quote-Keeps (write_key_delimiter callback) s write_key_delimiter-Keeps w)

  pub write_string-Keeps : (s : List ℕ) → Keeps (write_string callback s)
  unfolding write_string
  write_string-Keeps s =
      then-Keeps _ count_one
        (quote-Keeps (write_val_delimiter callback) s write_val_delimiter-Keeps)
        (λ w. here true _ refl)

  write_formatted-Keeps : (printed : Option (List ℕ)) → Keeps (write_formatted callback printed)
  unfolding write_formatted
  write_formatted-Keeps none w = here false w refl
  write_formatted-Keeps (some buf) w =
      if-Stands (leb 32 (length buf)) _ _ (here false w refl) (write_impl-Keeps buf w)

  pub write_number-Keeps : (printed : Option (List ℕ)) → Keeps (write_number callback printed)
  unfolding write_number
  write_number-Keeps printed =
      then-Keeps _ count_one
        (then-Keeps (write_val_delimiter callback) (write_formatted callback printed)
          write_val_delimiter-Keeps (write_formatted-Keeps printed))
        (λ w. here true _ refl)

  pub write_text-Keeps : (text : List ℕ) → Keeps (write_text callback text)
  unfolding write_text
  write_text-Keeps text =
      then-Keeps _ count_one
        (then-Keeps (write_val_delimiter callback) (write_impl callback text)
          write_val_delimiter-Keeps (write_impl-Keeps text))
        (λ w. here true _ refl)
