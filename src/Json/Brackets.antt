-- ===== src/Json/Brackets.antt =====
-- The brackets of an object and of an array.
use libnetq.Prelude.{
  ℕ, suc, ◌-◌, ◌≤◌, ◌<◌, ◌≡◌, refl, ap, ◌∙◌, List, ◌++◌, append_assoc, Bool, true, false, leb,
  if◌then◌else◌, arith,
}
use libnetq.Json.{
  Level, JsonWriter, and_then, ◌>>◌, modify, current, write_impl, write_val_delimiter, entered,
  left,
}
use libnetq.Json.Settle.{update_self, update_other, After, and_then-Does}
use libnetq.Json.Delimit.{level, Slot, send-Does, Does-congr, write_val_delimiter-Does}

module _ {U : Type 0} (callback : U → List ℕ → Bool × U) (contents : U → List ℕ)
    (takes : (u : U) (s : List ℕ) → (callback u s).0 ≡ true)
    (appends : (u : U) (s : List ℕ) → contents (callback u s).1 ≡ contents u ++ s) where
  -- `w1` stands inside a bracket that `w` opened.
  pub record Entered (w w1 : JsonWriter U) (text : List ℕ) (outer inner : Level) : Type 0 where
    pub sent : contents w1.userdata ≡ contents w.userdata ++ text
    pub no_error : w1.has_error ≡ false
    pub deeper : w1.depth_index ≡ suc w.depth_index
    pub counted : w.count ≤ w1.count
    pub inner_level : current w1 ≡ inner
    pub outer_level : w1.depth w.depth_index ≡ outer
    pub below : (i : ℕ) → i < w.depth_index → w1.depth i ≡ w.depth i

  entered-Entered :
      (o : Bool) {w w' : JsonWriter U} {t : List ℕ} {l : Level} {n : ℕ}
      → After contents w w' t l n
      → Entered w (entered o w') t l (level o false false)
  entered-Entered o {w} {w'} p = record {
    sent = p.sent;
    no_error = p.no_error;
    deeper = ap suc p.same_index;
    counted = omega (arith, p.counted);
    inner_level = update_self w'.depth (suc w'.depth_index) (level o false false);
    outer_level =
        update_other w'.depth (suc w'.depth_index) w.depth_index _ (omega (arith, p.same_index))
        ∙ p.settled_level;
    below = λ i h.
        update_other w'.depth (suc w'.depth_index) i _ (omega (arith, p.same_index)) ∙ p.below i h;
  }

  pub enter :
      (o : Bool) (text : List ℕ) {before : List ℕ} {l : Level} (w : JsonWriter U)
      → w.has_error ≡ false
      → w.depth_index < 254
      → Slot w before l
      → (w1 : JsonWriter U) × ((if leb (255 - 1) w.depth_index
            then (false, w)
            else (write_val_delimiter callback >> write_impl callback text >> modify (entered o)) w)
          ≡ (true, w1))
        × Entered w w1 (before ++ text) l (level o false false)
  enter o text w h d slot =
      let (w', e, p) =
        and_then-Does contents _ (write_val_delimiter-Does callback contents takes appends w h slot)
          (λ w' p.
            Does-congr callback contents takes appends refl refl
              (ap w'.depth p.same_index ∙ p.settled_level)
              (send-Does callback contents takes appends w' text p.no_error)) in
      let shallow : leb (255 - 1) w.depth_index ≡ false = ground arith in
      let body =
        (write_val_delimiter callback >> write_impl callback text >> modify (entered o)) w in
      (
        entered o w',
        ap (λ b. if b then (false, w) else body) shallow
            ∙ ap (λ r. and_then r (modify (entered o))) e,
        entered-Entered o p,
      )

  pub leave :
      (text : List ℕ) {w w1 w2 : JsonWriter U} {a b : List ℕ} {outer inner l : Level} {n : ℕ}
      → w.depth_index < 254
      → Entered w w1 a outer inner
      → After contents w1 w2 b l n
      → (w3 : JsonWriter U) × ((write_impl callback text >> modify left) w2 ≡ (true, w3))
        × After contents w w3 (a ++ (b ++ text)) outer 1
  leave text {w} {w1} {w2} {a} {b} d p q =
      let (w', e, r) = send-Does callback contents takes appends w2 text q.no_error in
      (
        left w',
        ap (λ r. and_then r (modify left)) e,
        record {
          sent =
              r.sent
              ∙ ap (λ t. t ++ text) (q.sent ∙ ap (λ t. t ++ b) p.sent)
              ∙ append_assoc (contents w.userdata ++ a) b text
              ∙ append_assoc (contents w.userdata) a (b ++ text);
          no_error = r.no_error;
          same_index = omega (arith, r.same_index, q.same_index, p.deeper);
          counted = omega (arith, r.counted, q.counted, p.counted);
          settled_level =
              r.below w.depth_index (omega (arith, q.same_index, p.deeper))
              ∙ q.below w.depth_index (omega (arith, p.deeper))
              ∙ p.outer_level;
          below = λ i h.
              r.below i (omega (arith, q.same_index, p.deeper))
              ∙ q.below i (omega (arith, p.deeper))
              ∙ p.below i h;
        },
      )
