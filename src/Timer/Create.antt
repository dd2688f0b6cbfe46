-- ===== src/Timer/Create.antt =====
-- `NQTimerQueue_create`, `NQTimerQueue_init` and `NQGetFls64`.
use libnetq.Prelude.{
  ℕ, zero, suc, ◌+◌, ◌-◌, ◌*◌, ◌/◌, ◌^◌, ◌≤◌, ◌<◌, ◌≡◌, refl, sym, ap, ◌∙◌, List, [], ◌∷◌, ◌++◌,
  none, some, Bool, false, ltb, leb, ◌==◌, ◌&&◌, if◌then◌else◌, arith, Bool-cases, inl, inr, ◌⊎◌,
}
use mathlib.Core.Path.{subst}
use libnetq.Timer.{TimerQueue, clz_loop, get_clz64, get_fls64, init_free, queue_init, create}
use libnetq.Timer.Lists.{count, count-append}
use libnetq.Timer.Valid.{IsValid}
use native.Mathlib.Nat.{div-lt_iff_lt-mul, le-div_iff_mul-le, one-le-pow, pow-suc, pow-le-pow_right}

-- The number of binary digits of a positive number.
record Digits (n x : ℕ) : Type 0 where
  upper : x < 2 ^ n
  lower : 2 ^ (n - 1) ≤ x
  positive : 1 ≤ n

clz_loop-Digits : (n x : ℕ) → x < 2 ^ n → 0 < x → (clz_loop n x ≤ n) × Digits (n - clz_loop n x) x
unfolding clz_loop
clz_loop-Digits zero x h p = absurd (omega arith)
clz_loop-Digits (suc n) x h p = elim (Bool-cases (x / 2 ^ n == 0)) [
  | inl e ↦
      let small : x < 2 ^ n =
        ground (arith, (div-lt_iff_lt-mul {x = x} {y = 1} (one-le-pow n 2 (omega arith))).0, e) in
      let (l, d) = clz_loop-Digits n x small p in
      let same : n - clz_loop n x ≡ suc n - suc (clz_loop n x) = omega arith in
      rw e (omega (arith, l), subst (λ (t : ℕ). Digits t x) same d)
  | inr e ↦
      let big : 2 ^ n ≤ x =
        ground (arith, (le-div_iff_mul-le {x = 1} {y = x} (one-le-pow n 2 (omega arith))).0, e) in
      let same : suc n ≡ suc n - 0 = omega arith in
      let one_less : suc n - 1 ≡ n = omega arith in
      rw e (
        omega arith,
        subst (λ (t : ℕ). Digits t x) same
            (record {
              upper = h;
              lower = subst (λ (t : ℕ). 2 ^ t ≤ x) (sym one_less) big;
              positive = omega arith;
            }),
      )
]

get_fls64-Digits : (x : ℕ) → x < 2 ^ 64 → 0 < x → Digits (get_fls64 x) x
unfolding get_fls64 get_clz64
get_fls64-Digits x h p = (clz_loop-Digits 64 x h p).1

count-init_free :
    (rounds index j : ℕ) (free : List ℕ)
    → count j (init_free rounds index free)
      ≡ count j free + (if leb index j && ltb j (index + rounds) then 1 else 0)
unfolding init_free
count-init_free zero index j free = ground arith
count-init_free (suc rounds) index j free = ground (
  arith,
  count-init_free rounds (index + 1) j (free ++ (index ∷ [])),
  count-append j free (index ∷ []),
)

pub queue_init-IsValid : (n : ℕ) → n ≤ 16 → IsValid (queue_init (2 ^ n))
unfolding queue_init
queue_init-IsValid n h = record {
  log_count = n;
  log_count_le = h;
  power = refl;
  once = λ j. ground (arith, count-init_free (2 ^ n) 0 j []);
  flags = λ j. refl;
  ids = λ j. refl;
  words = λ j g. omega (arith, g, pow-le-pow_right {n = 2} (omega arith) {i = n} {j = 16} h);
  sorted = tt;
  periods = λ j g. absurd (cc);
}

-- A queue is made for every size from 1 to 65535, and for no other, if the allocation succeeds: then
-- it is well formed, holds no timer, and has more entries than were asked for, at most twice as many.
pub create_lem :
    (zero_malloc : ℕ → Bool) (max_size : ℕ)
    → max_size < 2 ^ 64
    → ((create zero_malloc max_size ≡ none)
        × ((max_size ≡ 0) ⊎ (2 ^ 16 ≤ max_size) ⊎ (zero_malloc (2 ^ get_fls64 max_size) ≡ false)))
      ⊎ ((q : TimerQueue) × (create zero_malloc max_size ≡ some q)
          × IsValid q
          × (q.active_list ≡ [])
          × (max_size < q.alloc_count)
          × (q.alloc_count ≤ 2 * max_size))
unfolding create
create_lem zero_malloc max_size h = elim (Bool-cases (max_size == 0)) [
  | inl e ↦ inl (rw e refl, inl (ground (arith, e)))
  | inr positive ↦
      let n = get_fls64 max_size in
      let d = get_fls64-Digits max_size h (ground (arith, positive)) in
      elim (Bool-cases (ltb 16 n)) [
        | inl e ↦
            let more : 2 ^ 16 ≤ 2 ^ (n - 1) =
              pow-le-pow_right {n = 2} (omega arith) {i = 16} {j = n - 1} (ground (arith, e)) in
            inl (rw (positive, e) refl, inr (inl (omega (arith, more, d.lower))))
        | inr e ↦ elim (Bool-cases (zero_malloc (2 ^ n))) [
          | inr refused ↦ inl (rw (positive, e, refused) refl, inr (inr refused))
          | inl given ↦
              let back : n ≡ suc (n - 1) = omega (arith, d.positive) in
              let twice : 2 ^ n ≡ 2 ^ (n - 1) * 2 =
                ap (λ (t : ℕ). 2 ^ t) back ∙ pow-suc 2 (n - 1) in
              inr (
                queue_init (2 ^ n),
                rw (positive, e, given) refl,
                queue_init-IsValid n (ground (arith, e)),
                unfold queue_init in refl,
                unfold queue_init in d.upper,
                unfold queue_init in omega (arith, twice, d.lower),
              )
        ]
      ]
]
