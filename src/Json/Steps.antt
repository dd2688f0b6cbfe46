-- ===== src/Json/Steps.antt =====
-- What one call sends to a callback that takes everything.
use libnetq.Prelude.{
  ℕ, ◌≡◌, refl, sym, ap, ◌∙◌, List, [], ◌∷◌, ◌++◌, append-nil, append_assoc, Option, none, some,
  Bool, true,
}
use libnetq.Json.{
  JsonWriter, M, and_then, ◌>>◌, escape_of, escape_step, write_impl, escape_loop, write_escape,
  quote_mark,
}

-- A string between its quotation marks.
abbrev pub chunk : Option (List ℕ) → ℕ → List ℕ
chunk none c = c ∷ []
chunk (some buf) c = buf

abbrev pub escaped : List ℕ → List ℕ
escaped [] = []
escaped (c ∷ cs) = chunk (escape_of c) c ++ escaped cs

abbrev pub quoted : List ℕ → List ℕ
quoted s = quote_mark ++ (escaped s ++ quote_mark)

module _ {U : Type 0} (callback : U → List ℕ → Bool × U) (contents : U → List ℕ)
    (takes : (u : U) (s : List ℕ) → (callback u s).0 ≡ true)
    (appends : (u : U) (s : List ℕ) → contents (callback u s).1 ≡ contents u ++ s) where
  -- The answer is yes, the callback has got `text` by now, and the writer is `w` but for that.
  abbrev pub Leads : Bool × JsonWriter U → List ℕ → JsonWriter U → Type 0
  Leads r text w = (u : U) × (r ≡ (true, record w { userdata = u })) × (contents u ≡ text)

  -- The answer is yes, `text` is sent, and nothing else changes.
  abbrev pub Sends : Bool × JsonWriter U → JsonWriter U → List ℕ → Type 0
  Sends r w text = Leads r (contents w.userdata ++ text) w

  pub and_then-Leads :
      (r : Bool × JsonWriter U) (k : M U) (t t' : List ℕ) (w w' : JsonWriter U)
      → Leads r t w
      → ((u : U) → contents u ≡ t → Leads (k (record w { userdata = u })) t' w')
      → Leads (and_then r k) t' w'
  and_then-Leads r k t t' w w' (u, e, p) more =
      let (v, f, q) = more u p in (v, ap (λ r. and_then r k) e ∙ f, q)

  pub write_impl-Sends : (s : List ℕ) (w : JsonWriter U) → Sends (write_impl callback s w) w s
  unfolding write_impl
  write_impl-Sends [] w = (w.userdata, refl, sym (append-nil _))
  write_impl-Sends (c ∷ cs) w = (
    (callback w.userdata (c ∷ cs)).1,
    ap (λ b. (b, record w { userdata = (callback w.userdata (c ∷ cs)).1 }))
        (takes w.userdata (c ∷ cs)),
    appends w.userdata (c ∷ cs),
  )

  pub and_then-Sends :
      (r : Bool × JsonWriter U) (k : M U) (w : JsonWriter U) (a b : List ℕ)
      → Sends r w a
      → ((u : U) → Sends (k (record w { userdata = u })) (record w { userdata = u }) b)
      → Sends (and_then r k) w (a ++ b)
  and_then-Sends r k w a b (u, e, p) more =
      let (v, f, q) = more u in
      (
        v,
        ap (λ r. and_then r k) e ∙ f,
        q ∙ ap (λ t. t ++ b) p ∙ append_assoc (contents w.userdata) a b,
      )

  escape_step-Sends :
      (next : List ℕ → M U) (more : List ℕ)
      → ((pending : List ℕ) (w : JsonWriter U) → Sends (next pending w) w (pending ++ more))
      → (o : Option (List ℕ)) (c : ℕ) (pending : List ℕ) (w : JsonWriter U)
      → Sends (escape_step callback next o c pending w) w (pending ++ (chunk o c ++ more))
  escape_step-Sends next more ih none c pending w =
      let (u, f, p) = ih (pending ++ c ∷ []) w in
      (u, f, p ∙ ap (λ t. contents w.userdata ++ t) (append_assoc pending (c ∷ []) more))
  escape_step-Sends next more ih (some buf) c pending w =
      let (u, e, p) =
        and_then-Sends _ (next []) w (pending ++ buf) more
          (and_then-Sends _ (write_impl callback buf) w pending buf (write_impl-Sends pending w)
            (λ u. write_impl-Sends buf (record w { userdata = u })))
          (λ u. ih [] (record w { userdata = u })) in
      (u, e, p ∙ ap (λ t. contents w.userdata ++ t) (append_assoc pending buf more))

  pub escape_loop-Sends :
      (cs pending : List ℕ) (w : JsonWriter U)
      → Sends (escape_loop callback cs pending w) w (pending ++ escaped cs)
  unfolding escape_loop
  escape_loop-Sends [] pending w =
      let (u, e, p) = write_impl-Sends pending w in
      (u, e, p ∙ ap (λ t. contents w.userdata ++ t) (sym (append-nil pending)))
  escape_loop-Sends (c ∷ cs) pending w =
      escape_step-Sends (escape_loop callback cs) (escaped cs) (escape_loop-Sends cs) (escape_of c)
        c pending w

  pub quote-Sends :
      (s : List ℕ) (w : JsonWriter U)
      → Sends
          ((write_impl callback quote_mark
              >> write_escape callback s
              >> write_impl callback quote_mark)
            w)
          w
          (quoted s)
  quote-Sends s w =
      let (u, e, p) =
        and_then-Sends _ (write_impl callback quote_mark) w (quote_mark ++ escaped s) quote_mark
          (and_then-Sends _ (write_escape callback s) w quote_mark (escaped s)
            (write_impl-Sends quote_mark w)
            (λ u. escape_loop-Sends s [] (record w { userdata = u })))
          (λ u. write_impl-Sends quote_mark (record w { userdata = u })) in
      (u, e, p)
