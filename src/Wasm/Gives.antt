-- ===== src/Wasm/Gives.antt =====
-- What a read yields on bytes: values in their ranges.
use libnetq.Prelude.{
  ℕ, zero, suc, ◌+◌, ◌-◌, ◌*◌, ◌^◌, ◌<◌, ◌≡◌, sym, List, [], ◌∷◌, Option, none, some, Bool, true,
  ltb, arith, length, take, drop, All, IsByte, if_cases, length-take,
}
use mathlib.Core.Path.{subst}
use libnetq.Wasm.{
  Read, ◌>>=◌, then_read, give, refuse, read_uint8, read_data, read_leb128_uint32,
  read_leb128_uint64,
}
use libnetq.Wasm.Leb.{read_sum, read_leb128_lem}
use libnetq.Wasm.Import.{guarded}

abbrev pub Fine : {A : Type 0} → (A → Type 0) → Option A × List ℕ → Type 0
Fine P (none, rest) = Unit
Fine P (some a, rest) = P a × All IsByte rest

pub record Gives {A : Type 0} (P : A → Type 0) (m : Read A) : Type 0 where
  pub run : (bytes : List ℕ) → All IsByte bytes → Fine P (m bytes)

module _ {A B : Type 0} {P : A → Type 0} {Q : B → Type 0} (k : A → Read B)
    (q : (a : A) → P a → Gives Q (k a)) where
  Fine-then_read : (r : Option A × List ℕ) → Fine P r → Fine Q (then_read r k)
  Fine-then_read (none, rest) h = tt
  Fine-then_read (some a, rest) (h, g) = (q a h).run rest g

  pub Gives-then : {m : Read A} → Gives P m → Gives Q (m >>= k)
  unfolding ◌>>=◌
  Gives-then {m = m} p = record { run = λ bytes g. Fine-then_read (m bytes) (p.run bytes g) }

pub Gives-give : {A : Type 0} {P : A → Type 0} (a : A) → P a → Gives P (give a)
Gives-give a h = record { run = λ bytes g. (h, g) }

pub Gives-refuse : {A : Type 0} {P : A → Type 0} → Gives P refuse
Gives-refuse = record { run = λ bytes g. tt }

pub Gives-guarded :
    {A : Type 0} {P : A → Type 0} (b : Bool) (m : Read A)
    → (b ≡ true → Gives P m)
    → Gives P (guarded b m)
Gives-guarded {P = P} b m h = if_cases (λ m. Gives P m) b m refuse h (λ e. Gives-refuse)

read_uint8-Fine : (bytes : List ℕ) → All IsByte bytes → Fine IsByte (read_uint8 bytes)
read_uint8-Fine [] g = tt
read_uint8-Fine (b ∷ bytes) g = g

Fine-weaken :
    {A : Type 0} {P Q : A → Type 0}
    → ((a : A) → P a → Q a)
    → (r : Option A × List ℕ) → Fine P r
    → Fine Q r
Fine-weaken f (none, rest) h = tt
Fine-weaken f (some a, rest) (h, g) = (f a h, g)

pub Gives-weaken :
    {A : Type 0} {P Q : A → Type 0} {m : Read A} → ((a : A) → P a → Q a) → Gives P m → Gives Q m
Gives-weaken {m = m} f p = record { run = λ bytes g. Fine-weaken f (m bytes) (p.run bytes g) }

pub Gives-uint8 : Gives IsByte read_uint8
Gives-uint8 = record { run = read_uint8-Fine }

All-take : (n : ℕ) (bytes : List ℕ) → All IsByte bytes → All IsByte (take n bytes)
All-take zero bytes g = tt
All-take (suc n) [] g = tt
All-take (suc n) (b ∷ bytes) (h, g) = (h, All-take n bytes g)

pub All-drop : (n : ℕ) (bytes : List ℕ) → All IsByte bytes → All IsByte (drop n bytes)
All-drop zero bytes g = g
All-drop (suc n) [] g = tt
All-drop (suc n) (b ∷ bytes) (h, g) = All-drop n bytes g

pub Gives-data : (n : ℕ) → Gives (λ bytes. (length bytes ≡ n) × All IsByte bytes) (read_data n)
unfolding read_data
Gives-data n = record {
  run = λ bytes g.
      if_cases (Fine (λ bytes. (length bytes ≡ n) × All IsByte bytes)) (ltb (length bytes) n) _ _
        (λ e. tt)
        (λ e. ((ground (arith, length-take n bytes), All-take n bytes g), All-drop n bytes g));
}

read_sum-Fine :
    (limit : ℕ) (bytes : List ℕ) (w sum : ℕ)
    → All IsByte bytes
    → Fine (λ v. v < 2 ^ (8 * limit)) (read_sum limit w sum bytes)
unfolding read_sum
read_sum-Fine limit [] w sum g = tt
read_sum-Fine limit (b ∷ bytes) w sum (h, g) =
    let s = sum + b * 2 ^ w in
    let P : ℕ → Type 0 = λ v. v < 2 ^ (8 * limit) in
    if_cases (Fine P) (ltb b 128) _ _
      (λ e.
        if_cases (Fine P) (ltb s (2 ^ (8 * limit))) _ _ (λ small. (ground (arith, small), g))
          (λ e. tt))
      (λ e.
        if_cases (Fine P) (ltb (8 * limit) (w + 7)) _ _ (λ e. tt)
          (λ e. read_sum-Fine limit bytes (w + 7) (sum + (b - 128) * 2 ^ w) g))

pub Gives-uint32 : Gives (λ v. v < 2 ^ 32) read_leb128_uint32
Gives-uint32 = record {
  run = λ bytes g.
      subst (Fine (λ v. v < 2 ^ 32)) (sym (read_leb128_lem bytes g).0)
        (read_sum-Fine 4 bytes 0 0 g);
}

pub Gives-uint64 : Gives (λ v. v < 2 ^ 64) read_leb128_uint64
Gives-uint64 = record {
  run = λ bytes g.
      subst (Fine (λ v. v < 2 ^ 64)) (sym (read_leb128_lem bytes g).1)
        (read_sum-Fine 8 bytes 0 0 g);
}
