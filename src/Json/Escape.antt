-- ===== src/Json/Escape.antt =====
-- Strings of JSON in ASCII, read as RFC 8259 says, by a reader that is independent of the writer. It
-- gives the codes of the characters; a byte from 128 on, which is no character of ASCII, is refused.
use libnetq.Prelude.{
  ℕ, zero, suc, ◌+◌, ◌-◌, ◌*◌, ◌≡◌, refl, sym, ap, ◌∙◌, List, [], ◌∷◌, ◌++◌, append_assoc, Option,
  none, some, Bool, true, false, ◌&&◌, ◌||◌, ◌==◌, ltb, leb, if◌then◌else◌, All, IsByte, all_below,
  all_below_sound, ==_iff,
}
use libnetq.Json.{escape_of, quote_mark}
use libnetq.Json.Steps.{chunk, escaped, quoted}

-- Between characters, behind a backslash, or with so many hexadecimal digits to come.
data Mode : Type 0 where
  plain : Mode
  backslash : Mode
  hex : ℕ → ℕ → Mode

abbrev hex_value : ℕ → Option ℕ
hex_value c =
    if leb 0x30 c && leb c 0x39
    then some (c - 0x30)
    else if leb 0x41 c && leb c 0x46
    then some (c - 0x41 + 10)
    else if leb 0x61 c && leb c 0x66
    then some (c - 0x61 + 10)
    else none

abbrev simple_escape : ℕ → Option ℕ
simple_escape c =
    if c == 0x22 || c == 0x5C || c == 0x2F
    then some c
    else if c == 0x62
    then some 0x08
    else if c == 0x66
    then some 0x0C
    else if c == 0x6E
    then some 0x0A
    else if c == 0x72
    then some 0x0D
    else if c == 0x74
    then some 0x09
    else none

abbrev Next : Type 0
Next = Option (Mode × List ℕ)

abbrev emit : Option ℕ → Next
emit none = none
emit (some c) = some (plain, c ∷ [])

abbrev next_digit : ℕ → ℕ → Option ℕ → Next
next_digit left value none = none
next_digit zero value (some d) = some (plain, (value * 16 + d) ∷ [])
next_digit (suc left) value (some d) = some (hex left (value * 16 + d), [])

-- The next mode and what is read with this character; a quotation mark ends the string.
step : Mode → ℕ → Next
step plain c =
    if c == 0x22 || ltb c 0x20 || leb 0x80 c
    then none
    else if c == 0x5C
    then some (backslash, [])
    else some (plain, c ∷ [])
step backslash c = if c == 0x75 then some (hex 3 0, []) else emit (simple_escape c)
step (hex left value) c = next_digit left value (hex_value c)

abbrev prepend : List ℕ → Option (List ℕ × List ℕ) → Option (List ℕ × List ℕ)
prepend e none = none
prepend e (some (s, rest)) = some (e ++ s, rest)

abbrev resume : (Mode → Option (List ℕ × List ℕ)) → Next → Option (List ℕ × List ℕ)
resume read none = none
resume read (some (m, e)) = prepend e (read m)

abbrev ends : Mode → ℕ → Bool
ends plain c = c == 0x22
ends backslash c = false
ends (hex left value) c = false

-- What is read up to the closing quotation mark, and what is behind it.
read_string : Mode → List ℕ → Option (List ℕ × List ℕ)
read_string m [] = none
read_string m (c ∷ cs) =
    if ends m c then some ([], cs) else resume (λ m. read_string m cs) (step m c)

-- A string, its opening quotation mark included.
pub parse_string : List ℕ → Option (List ℕ × List ℕ)
parse_string [] = none
parse_string (c ∷ cs) = if c == 0x22 then read_string plain cs else none

-- A whole run of characters.
abbrev joined : List ℕ → Next → Next
joined e none = none
joined e (some (m, e')) = some (m, e ++ e')

abbrev run_on : (Mode → Next) → Next → Next
run_on rest none = none
run_on rest (some (m, e)) = joined e (rest m)

run : Mode → List ℕ → Next
run m [] = some (m, [])
run m (c ∷ cs) = if ends m c then none else run_on (λ m. run m cs) (step m c)

is_read : Next → ℕ → Bool
is_read none c = false
is_read (some (plain, d ∷ [])) c = d == c
is_read (some _) c = false

-- What a byte is replaced by is read as the character whose code the byte is.
chunks_read : all_below 256 (λ c. is_read (run plain (chunk (escape_of c) c)) c) ≡ true
unfolding all_below is_read run step escape_of
chunks_read = refl

prepend-prepend :
    (a b : List ℕ) (o : Option (List ℕ × List ℕ)) → prepend a (prepend b o) ≡ prepend (a ++ b) o
prepend-prepend a b none = refl
prepend-prepend a b (some (s, rest)) = ap (λ t. some (t, rest)) (sym (append_assoc a b s))

module _ (later : Mode → Option (List ℕ × List ℕ)) where
  prepend-joined :
      (e0 : List ℕ) (r : Next) (read : Option (List ℕ × List ℕ))
      → ((m : Mode) (e : List ℕ) → r ≡ some (m, e) → read ≡ prepend e (later m))
      → (m : Mode) (e : List ℕ) → joined e0 r ≡ some (m, e)
      → prepend e0 read ≡ prepend e (later m)
  prepend-joined e0 none read ih m e h = absurd (cc)
  prepend-joined e0 (some (m1, e1)) read ih m e h =
      cc (ap (prepend e0) (ih m1 e1 refl), prepend-prepend e0 e1 (later m1))

  resume-run_on :
      (read : Mode → Option (List ℕ × List ℕ)) (rest : Mode → Next)
      → ((m m' : Mode) (e : List ℕ) → rest m ≡ some (m', e) → read m ≡ prepend e (later m'))
      → (o : Next) (m' : Mode) (e : List ℕ) → run_on rest o ≡ some (m', e)
      → resume read o ≡ prepend e (later m')
  resume-run_on read rest ih none m' e h = absurd (cc)
  resume-run_on read rest ih (some (m, e0)) m' e h =
      prepend-joined e0 (rest m) (read m) (ih m) m' e h

unless :
    (b : Bool) (o : Next) (m : Mode) (e : List ℕ)
    → (if b then none else o) ≡ some (m, e)
    → (b ≡ false) × (o ≡ some (m, e))
unless true o m e h = absurd (cc)
unless false o m e h = (refl, h)

prepend-nil : (o : Option (List ℕ × List ℕ)) → o ≡ prepend [] o
prepend-nil none = refl
prepend-nil (some (s, rest)) = refl

-- A run is read whatever follows it.
read_string-run :
    (cs rest : List ℕ) (m m' : Mode) (e : List ℕ)
    → run m cs ≡ some (m', e)
    → read_string m (cs ++ rest) ≡ prepend e (read_string m' rest)
unfolding run read_string
read_string-run [] rest m m' e h = prepend-nil (read_string m rest) ∙ cc
read_string-run (c ∷ cs) rest m m' e h =
    let (stays, on) = unless (ends m c) _ m' e h in
    ap
      (λ b.
        if b then some ([], cs ++ rest) else resume (λ m. read_string m (cs ++ rest)) (step m c))
      stays
    ∙ resume-run_on (λ m. read_string m rest) (λ m. read_string m (cs ++ rest)) (λ m. run m cs)
        (λ m m' e. read_string-run cs rest m m' e) (step m c) m' e on

is_read_lem : (o : Next) (c : ℕ) → is_read o c ≡ true → o ≡ some (plain, c ∷ [])
unfolding is_read
is_read_lem none c h = absurd (cc)
is_read_lem (some (plain, [])) c h = absurd (cc)
is_read_lem (some (plain, d ∷ [])) c h = ap (λ t. some (plain, t ∷ [])) ((==_iff d c).0 h)
is_read_lem (some (plain, d ∷ f ∷ r)) c h = absurd (cc)
is_read_lem (some (backslash, e)) c h = absurd (cc)
is_read_lem (some (hex left v, e)) c h = absurd (cc)

read_string-escaped :
    (s rest : List ℕ)
    → All IsByte s
    → read_string plain (escaped s ++ (0x22 ∷ rest)) ≡ some (s, rest)
unfolding read_string
read_string-escaped [] rest g = refl
read_string-escaped (c ∷ cs) rest (h, g) =
    let read = is_read_lem _ c (all_below_sound 256 _ c chunks_read h) in
    ap (read_string plain) (append_assoc (chunk (escape_of c) c) (escaped cs) (0x22 ∷ rest))
    ∙ read_string-run (chunk (escape_of c) c) (escaped cs ++ (0x22 ∷ rest)) plain plain (c ∷ [])
        read
    ∙ ap (prepend (c ∷ [])) (read_string-escaped cs rest g)

-- A string that the writer quotes is read as one character for each byte, that of the byte's code, with
-- what stands behind it left: no byte can end the string early.
pub parse_string-quoted :
    (s rest : List ℕ) → All IsByte s → parse_string (quoted s ++ rest) ≡ some (s, rest)
unfolding parse_string
parse_string-quoted s rest g =
    ap (read_string plain) (append_assoc (escaped s) quote_mark rest) ∙ read_string-escaped s rest g
