-- ===== src/Json/Nesting.antt =====
-- How deep a writer stands in calls that are nested.
use libnetq.Prelude.{
  ℕ, suc, ◌≤◌, ◌<◌, ◌≡◌, ◌⊎◌, refl, ap, ◌∙◌, List, Bool, true, false, if◌then◌else◌, inl, inr,
  arith,
}
use libnetq.Json.{
  JsonWriter, M, and_then, ◌>>◌, modify, is_last_depth, entered, left, write_impl,
  write_val_delimiter,
}
use libnetq.Json.Depth.{Stands, Keeps, then-Keeps, write_impl-Keeps, write_val_delimiter-Keeps}
use libnetq.Json.Writer.{guarded, settle}
use libnetq.Json.Value.{and_also}

-- The index stays in the array, and is `n` if the step succeeds.
abbrev pub Moves : {U : Type 0} → ℕ → Bool × JsonWriter U → Type 0
Moves n r = (r.1.depth_index ≤ 254) × ((r.0 ≡ false) ⊎ (r.1.depth_index ≡ n))

-- The writer's index is in the array, and counts what is open unless there was an error.
abbrev pub IsWithin : {U : Type 0} → ℕ → JsonWriter U → Type 0
IsWithin n w = (w.depth_index ≤ 254) × ((w.has_error ≡ true) ⊎ (w.depth_index ≡ n))

module _ {U : Type 0} where
  pub Keeps-Moves :
      {n : ℕ} (m : M U)
      → Keeps m
      → (w : JsonWriter U) → w.depth_index ≤ 254
      → w.depth_index ≡ n
      → Moves n (m w)
  Keeps-Moves m k w h e = (omega (arith, (k w).same), inr ((k w).same ∙ e))

  pub and_then-Moves :
      {n n' : ℕ} (r : Bool × JsonWriter U) (k : M U)
      → Moves n r
      → ((w : JsonWriter U) → w.depth_index ≤ 254 → w.depth_index ≡ n → Moves n' (k w))
      → Moves n' (and_then r k)
  and_then-Moves (true, w) k (b, inl e) q = absurd (cc)
  and_then-Moves (true, w) k (b, inr e) q = q w b e
  and_then-Moves (false, w) k p q = (p.0, inl refl)

  refused-Moves : {n : ℕ} (w : JsonWriter U) → w.depth_index ≤ 254 → Moves n (false, w)
  refused-Moves w h = (h, inl refl)

  entered-Moves :
      {n : ℕ} (o : Bool) (r : Bool × JsonWriter U)
      → n < 254
      → Stands n r
      → Moves (suc n) (and_then r (modify (entered o)))
  entered-Moves o (true, w) h k = (omega (arith, k.same), inr (ap suc k.same))
  entered-Moves o (false, w) h k = (omega (arith, k.same), inl refl)

  left-Moves :
      {n n' : ℕ} (r : Bool × JsonWriter U)
      → n ≤ 254
      → n ≡ suc n'
      → Stands n r
      → Moves n' (and_then r (modify left))
  left-Moves (true, w) h i k = (omega (arith, k.same), inr (omega (arith, k.same)))
  left-Moves (false, w) h i k = (omega (arith, k.same), inl refl)

  if-Moves :
      {n : ℕ} (b : Bool) (r s : Bool × JsonWriter U)
      → (b ≡ true → Moves n r)
      → (b ≡ false → Moves n s)
      → Moves n (if b then r else s)
  if-Moves true r s p q = p refl
  if-Moves false r s p q = q refl

  settle-IsWithin : {n : ℕ} (r : Bool × JsonWriter U) → Moves n r → IsWithin n (settle r).1
  settle-IsWithin (true, w) (b, inl e) = absurd (cc)
  settle-IsWithin (true, w) (b, inr e) = (b, inr e)
  settle-IsWithin (false, w) p = (p.0, inl refl)

  settle_unless-IsWithin :
      {n n' : ℕ} (b : Bool) (w : JsonWriter U) (r : Bool × JsonWriter U)
      → w.has_error ≡ b
      → IsWithin n w
      → (w.depth_index ≡ n → Moves n' r)
      → IsWithin n' (if b then (false, w) else settle r).1
  settle_unless-IsWithin true w r e p q = (p.0, inl e)
  settle_unless-IsWithin false w r e (h, inl t) q = absurd (cc)
  settle_unless-IsWithin false w r e (h, inr i) q = settle-IsWithin r (q i)

-- A call leads from `n` open objects and arrays to `n'`.
pub record Steps {U : Type 0} (n n' : ℕ) (m : M U) : Type 0 where
  pub step : (w : JsonWriter U) → IsWithin n w → IsWithin n' (m w).1

module _ {U : Type 0} where
  pub guarded-Steps :
      {n n' : ℕ} (m : M U)
      → ((w : JsonWriter U) → w.depth_index ≤ 254 → w.depth_index ≡ n → Moves n' (m w))
      → Steps n n' (guarded m)
  unfolding guarded
  guarded-Steps m q = record {
    step = λ w p. settle_unless-IsWithin w.has_error w (m w) refl p (q w p.0);
  }

  pub kept-Steps : {n : ℕ} (m : M U) → Keeps m → Steps n n (guarded m)
  kept-Steps m k = guarded-Steps m (Keeps-Moves m k)

  pub nothing-Steps : {n : ℕ} {a : Bool} → Steps {U = U} n n (λ w. (a, w))
  nothing-Steps = record { step = λ w p. p }

  pub sized-Steps :
      {n : ℕ} (b : Bool) (m : M U)
      → Keeps m
      → Steps n n (λ w. if b then (false, w) else guarded m w)
  sized-Steps true m k = nothing-Steps
  sized-Steps false m k = record { step = λ w p. (kept-Steps m k).step w p }

  pub and_also-Steps :
      {n n1 n' : ℕ} (m k : M U) → Steps n n1 m → Steps n1 n' k → Steps n n' (and_also m k)
  and_also-Steps m k p q = record { step = λ w h. q.step (m w).1 (p.step w h) }

module _ {U : Type 0} (callback : U → List ℕ → Bool × U) where
  pub begin-Moves :
      {n : ℕ} (o : Bool) (text : List ℕ) (w : JsonWriter U)
      → w.depth_index ≤ 254
      → w.depth_index ≡ n
      → Moves (suc n) (
          if is_last_depth w
          then (false, w)
          else (write_val_delimiter callback >> write_impl callback text >> modify (entered o)) w)
  begin-Moves o text w h e =
      let before = write_val_delimiter callback in
      let opened = before >> write_impl callback text in
      if-Moves (is_last_depth w) (false, w) _ (λ t. refused-Moves w h)
        (λ f. entered-Moves o (opened w) (ground arith) (record {
          same =
              (then-Keeps before (write_impl callback text) (write_val_delimiter-Keeps callback)
                (write_impl-Keeps callback text) w).same
              ∙ e;
        }))

  pub end-Moves :
      {n n' : ℕ} (refuses : Bool) (text : List ℕ) (w : JsonWriter U)
      → n ≡ suc n'
      → w.depth_index ≤ 254
      → w.depth_index ≡ n
      → Moves n' (if refuses then (false, w) else (write_impl callback text >> modify left) w)
  end-Moves refuses text w i h e =
      if-Moves refuses (false, w) _ (λ t. refused-Moves w h)
        (λ f.
          left-Moves (write_impl callback text w) (omega arith) i
            (record { same = (write_impl-Keeps callback text w).same ∙ e }))
