-- ===== src/Json/Strings.antt =====
-- Strings that are written and read again.
use libnetq.Prelude.{
  ℕ, ◌<◌, arith, ◌≡◌, refl, List, [], ◌∷◌, ◌++◌, some, Bool, true, false, ◌==◌, if◌then◌else◌, All,
  IsByte,
}
use libnetq.Json
use libnetq.Json.{Level, Printf, JsonWriter, c_string}
use libnetq.Json.Writer
use libnetq.Json.Steps.{quoted}
use libnetq.Json.Single.{guarded-Does, write_string-Does}
use libnetq.Json.Delimit.{Slot}
use libnetq.Json.Escape.{parse_string, parse_string-quoted}

abbrev pub IsAscii : ℕ → Type 0
IsAscii c = c < 128

All-unless : (b : Bool) (s : List ℕ) → All IsByte s → All IsByte (if b then [] else s)
All-unless true s h = tt
All-unless false s h = h

All-c_string : (s : List ℕ) → All IsAscii s → All IsByte (c_string s)
All-c_string [] h = h
All-c_string (c ∷ cs) (h, hs) =
    All-unless (c == 0) (c ∷ c_string cs) (omega (arith, h), All-c_string cs hs)

module _ {U : Type 0} (callback : U → List ℕ → Bool × U) (contents : U → List ℕ)
    (takes : (u : U) (s : List ℕ) → (callback u s).0 ≡ true)
    (appends : (u : U) (s : List ℕ) → contents (callback u s).1 ≡ contents u ++ s)
    (lib : Printf) where
  -- A writer just made writes a string of ASCII characters, with a callback that takes what it is given,
  -- and a reader of JSON's strings in ASCII that starts behind what stood there reads the same
  -- characters, up to the first 0, and leaves what follows.
  pub parse_string-write_string :
      (memory : ℕ → Level) (u : U) (s rest : List ℕ)
      → All IsAscii s
      → (w : JsonWriter U) × (Writer.write_string callback lib s (Writer.init memory u) ≡ (true, w))
        × (text : List ℕ) × (contents w.userdata ≡ contents u ++ text)
        × (parse_string (text ++ rest) ≡ some (c_string s, rest))
  unfolding Writer.init Writer.write_string
  parse_string-write_string memory u s rest h =
      let w0 = Writer.init memory u in
      let name = c_string s in
      let (w, e, q) =
        guarded-Does callback contents takes appends lib (Json.write_string callback name) refl (
          write_string-Does callback contents takes appends lib name w0 refl
            (Slot.root refl refl)) in
      (w, e, quoted name, q.sent, parse_string-quoted name rest (All-c_string s h))
