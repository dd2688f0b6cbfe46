-- ===== src/Json/Delimit.antt =====
-- The delimiters before a key and before a value.
use libnetq.Prelude.{
  ℕ, ◌≤◌, ◌≡◌, refl, sym, ap, ◌∙◌, List, [], ◌++◌, append-nil, Bool, true, false, if◌then◌else◌,
  arith,
}
use libnetq.Json.{
  Level, JsonWriter, and_then, modify, current, set_current, write_impl, comma, colon,
  write_key_delimiter, write_val_delimiter,
}
use libnetq.Json.Steps.{Sends, write_impl-Sends}
use mathlib.Core.Path.{subst}
use libnetq.Json.Settle.{update_self, update_other, After, Does, and_then-Does}

abbrev pub level : Bool → Bool → Bool → Level
level o c k = record { is_object = o; has_child = c; has_key = k }

abbrev child_set : Level → Level
child_set l = record l { has_child = true }

abbrev key_set : Bool → Level → Level
key_set k l = record l { has_key = k }

-- Where a value may come, what stands before it and the level that it leaves.
pub data Slot {U : Type 0} (w : JsonWriter U) : List ℕ → Level → Type 0 where
  root : w.depth_index ≡ 0 → w.count ≡ 0 → Slot w [] (current w)
  member :
      (c : Bool)
      → 1 ≤ w.depth_index
      → current w ≡ level true c true
      → Slot w colon (level true true false)
  element :
      (c : Bool)
      → 1 ≤ w.depth_index
      → current w ≡ level false c false
      → Slot w (if c then comma else []) (level false true false)

module _ {U : Type 0} (callback : U → List ℕ → Bool × U) (contents : U → List ℕ)
    (takes : (u : U) (s : List ℕ) → (callback u s).0 ≡ true)
    (appends : (u : U) (s : List ℕ) → contents (callback u s).1 ≡ contents u ++ s) where
  pub Sends-Does :
      {r : Bool × JsonWriter U} {w : JsonWriter U} {text : List ℕ}
      → w.has_error ≡ false
      → Sends callback contents takes appends r w text
      → Does contents r w text (current w) 0
  Sends-Does {w = w} h (u, e, p) = (
    record w { userdata = u },
    e,
    record {
      sent = p;
      no_error = h;
      same_index = refl;
      counted = omega arith;
      settled_level = refl;
      below = λ i k. refl;
    },
  )

  -- The current level is changed by `f`.
  change-Does :
      (f : Level → Level) {w w' : JsonWriter U} {text : List ℕ} {l : Level} {n : ℕ}
      → After contents w w' text l n
      → Does contents (modify (λ w. set_current (f (current w)) w) w') w' [] (f l) 0
  change-Does f {w' = w'} p =
      let new = f (current w') in
      (
        set_current new w',
        refl,
        record {
          sent = sym (append-nil _);
          no_error = p.no_error;
          same_index = refl;
          counted = omega arith;
          settled_level =
              update_self w'.depth w'.depth_index new
              ∙ ap f (ap w'.depth p.same_index ∙ p.settled_level);
          below = λ i k. update_other w'.depth w'.depth_index i new (omega arith);
        },
      )

  pub send-Does :
      (w : JsonWriter U) (text : List ℕ)
      → w.has_error ≡ false
      → Does contents (write_impl callback text w) w text (current w) 0
  send-Does w text h = Sends-Does h (write_impl-Sends callback contents takes appends text w)

  -- Nothing is sent.
  pub idle-Does :
      (w : JsonWriter U) → w.has_error ≡ false → Does contents (true, w) w [] (current w) 0
  idle-Does w h = (
    w,
    refl,
    record {
      sent = sym (append-nil _);
      no_error = h;
      same_index = refl;
      counted = omega arith;
      settled_level = refl;
      below = λ i k. refl;
    },
  )

  comma-Does :
      (c : Bool) (w : JsonWriter U)
      → w.has_error ≡ false
      → Does contents
          (if c then write_impl callback comma w else (true, w))
          w
          (if c then comma else [])
          (current w)
          0
  comma-Does true w h = send-Does w comma h
  comma-Does false w h = idle-Does w h

  -- The same, said of equal answers, texts and levels.
  pub Does-congr :
      {r r' : Bool × JsonWriter U} {w : JsonWriter U} {t t' : List ℕ} {l l' : Level} {n : ℕ}
      → r ≡ r'
      → t' ≡ t
      → l' ≡ l
      → Does contents r' w t' l' n
      → Does contents r w t l n
  Does-congr {w = w} {t = t} {l' = l'} {n = n} p q e (w', f, after) = (
    w',
    p ∙ f,
    subst (λ l. After contents w w' t l n) e (subst (λ t. After contents w w' t l' n) q after),
  )

  pub write_val_delimiter-Does :
      {before : List ℕ} {l : Level} (w : JsonWriter U)
      → w.has_error ≡ false
      → Slot w before l
      → Does contents (write_val_delimiter callback w) w before l 0
  unfolding write_val_delimiter
  write_val_delimiter-Does w h (root i c) =
      let e : write_val_delimiter callback w ≡ (true, w) = ground arith in
      let (w', f, p) = idle-Does w h in (w', e ∙ f, p)
  write_val_delimiter-Does w h (member c i e) =
      let object : (current w).is_object ≡ true = ap (λ l. l.is_object) e in
      let key : (current w).has_key ≡ true = ap (λ l. l.has_key) e in
      let opened : write_val_delimiter callback w
          ≡ and_then
              (and_then (write_impl callback colon w)
                (modify (λ w. set_current (record (current w) { has_key = false }) w)))
              (modify (λ w. set_current (record (current w) { has_child = true }) w)) =
        ground arith in
      Does-congr opened refl (ap (λ l. child_set (key_set false l)) e) (
        and_then-Does contents _
          (and_then-Does contents _ (send-Does w colon h) (λ w' p. change-Does (key_set false) p))
          (λ w' p. change-Does child_set p))
  write_val_delimiter-Does w h (element c i e) =
      let array : (current w).is_object ≡ false = ap (λ l. l.is_object) e in
      let child : (current w).has_child ≡ c = ap (λ l. l.has_child) e in
      let opened : write_val_delimiter callback w
          ≡ and_then (if c then write_impl callback comma w else (true, w))
              (modify (λ w. set_current (record (current w) { has_child = true }) w)) =
        ground arith in
      Does-congr opened (append-nil _) (ap child_set e)
        (and_then-Does contents _ (comma-Does c w h) (λ w' p. change-Does child_set p))

  pub write_key_delimiter-Does :
      (c : Bool) (w : JsonWriter U)
      → w.has_error ≡ false
      → 1 ≤ w.depth_index
      → current w ≡ level true c false
      → Does contents
          (write_key_delimiter callback w)
          w
          (if c then comma else [])
          (level true c true)
          0
  unfolding write_key_delimiter
  write_key_delimiter-Does c w h i e =
      let object : (current w).is_object ≡ true = ap (λ l. l.is_object) e in
      let child : (current w).has_child ≡ c = ap (λ l. l.has_child) e in
      let key : (current w).has_key ≡ false = ap (λ l. l.has_key) e in
      let opened : write_key_delimiter callback w
          ≡ and_then (if c then write_impl callback comma w else (true, w))
              (modify (λ w. set_current (record (current w) { has_key = true }) w)) =
        ground arith in
      Does-congr opened (append-nil _) (ap (key_set true) e)
        (and_then-Does contents _ (comma-Does c w h) (λ w' p. change-Does (key_set true) p))
