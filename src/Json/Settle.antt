-- ===== src/Json/Settle.antt =====
-- What a step leaves of a writer: the text that it sends and the level that it settles.
use libnetq.Prelude.{
  ℕ, ◌+◌, ◌≤◌, ◌<◌, ◌≡◌, ◌≢◌, sym, ap, ◌∙◌, List, ◌++◌, append_assoc, Bool, true, false, arith,
}
use libnetq.Json.{Level, JsonWriter, M, and_then, update}

pub update_self : (f : ℕ → Level) (i : ℕ) (l : Level) → update f i l i ≡ l
update_self f i l = ground arith

pub update_other : (f : ℕ → Level) (i j : ℕ) (l : Level) → j ≢ i → update f i l j ≡ f j
update_other f i j l h = ground arith

module _ {U : Type 0} (contents : U → List ℕ) where
  -- `w` has become `w'`: `text` is sent, `n` values at least are counted, the current level is
  -- `level`, and the levels below it are as they were.
  pub record After (w w' : JsonWriter U) (text : List ℕ) (level : Level) (n : ℕ) : Type 0 where
    pub sent : contents w'.userdata ≡ contents w.userdata ++ text
    pub no_error : w'.has_error ≡ false
    pub same_index : w'.depth_index ≡ w.depth_index
    pub counted : w.count + n ≤ w'.count
    pub settled_level : w'.depth w.depth_index ≡ level
    pub below : (i : ℕ) → i < w.depth_index → w'.depth i ≡ w.depth i

  abbrev pub Does : Bool × JsonWriter U → JsonWriter U → List ℕ → Level → ℕ → Type 0
  Does r w text level n = (w' : JsonWriter U) × (r ≡ (true, w')) × After w w' text level n

  pub After-trans :
      {w w1 w2 : JsonWriter U} {a b : List ℕ} {l l' : Level} {n m : ℕ}
      → After w w1 a l n
      → After w1 w2 b l' m
      → After w w2 (a ++ b) l' (n + m)
  After-trans {w} {w1} {w2} {a} {b} {l} {l'} p q = record {
    sent = q.sent ∙ ap (λ t. t ++ b) p.sent ∙ append_assoc (contents w.userdata) a b;
    no_error = q.no_error;
    same_index = q.same_index ∙ p.same_index;
    counted = omega (arith, p.counted, q.counted);
    settled_level = ap w2.depth (sym p.same_index) ∙ q.settled_level;
    below = λ i h. q.below i (omega (arith, p.same_index)) ∙ p.below i h;
  }

  pub After-weaken :
      {w w' : JsonWriter U} {t : List ℕ} {l : Level} {n m : ℕ}
      → m ≤ n
      → After w w' t l n
      → After w w' t l m
  After-weaken h p = record {
    sent = p.sent;
    no_error = p.no_error;
    same_index = p.same_index;
    counted = omega (arith, p.counted);
    settled_level = p.settled_level;
    below = p.below;
  }

  pub and_then-Does :
      {r : Bool × JsonWriter U} {w : JsonWriter U} {a b : List ℕ} {l l' : Level} {n m : ℕ} (k : M U)
      → Does r w a l n
      → ((w' : JsonWriter U) → After w w' a l n → Does (k w') w' b l' m)
      → Does (and_then r k) w (a ++ b) l' (n + m)
  and_then-Does k (w1, e, p) more =
      let (w2, f, q) = more w1 p in (w2, ap (λ r. and_then r k) e ∙ f, After-trans p q)
