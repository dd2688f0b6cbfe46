-- ===== src/Timer/Shift.antt =====
-- `NQTimerQueue_shiftTimer` and `NQTimerQueue_timeout`: which timer is handed out, and when.
use libnetq.Prelude.{
  ℕ, ◌%◌, ◌^◌, ◌<◌, ◌≡◌, refl, ap, ◌∙◌, List, [], ◌∷◌, Option, none, some, true, false, ltb, ◌==◌,
  arith, if_cases, Bool-cases, inl, inr, ◌⊎◌,
}
use mathlib.Core.Path.{subst}
use libnetq.Prelude.Int.{ℤ, pos, negsuc, ◌<ℤ◌, ◌≤ℤ◌, distance, of_word}
use libnetq.Timer.{
  TimerData, TimerQueue, shift_timer, shift_first, rearm, queue_timeout, timeout_of, is_minus_one,
  time_left, time_of, release, unlink, to_int,
}
use libnetq.Timer.Lists.{count, IsSorted, count-All}
use libnetq.Timer.Valid.{IsValid}
use libnetq.Timer.Run.{first_active}

pub to_int_small : (n : ℕ) → n < 2 ^ 31 → to_int n ≡ pos n
unfolding of_word
to_int_small n h = ground (arith, h)

to_int_wrap : (n : ℕ) → n % 2 ^ 32 ≡ 0 → to_int n ≡ pos 0
unfolding of_word
to_int_wrap n h = ground (arith, h)

-- A timer that is due first: none that is active is due earlier.
pub record Earliest (q : TimerQueue) (i : ℕ) : Type 0 where
  pub active : (q.alloc_timer i).active ≡ true
  pub first : (j : ℕ) → (q.alloc_timer j).active ≡ true → time_of q i ≤ℤ time_of q j

-- What a shift at the time `now` does.
pub data Shifted (q : TimerQueue) (now : ℤ) (r : ℤ × Option TimerData × TimerQueue) : Type 0 where
  idle : ((j : ℕ) → (q.alloc_timer j).active ≡ false) → r ≡ (negsuc 0, none, q) → Shifted q now r
  waiting :
      (i : ℕ)
      → Earliest q i
      → now <ℤ time_of q i
      → r ≡ (to_int (distance now (time_of q i)), none, q)
      → Shifted q now r
  once :
      (i : ℕ)
      → Earliest q i
      → time_of q i ≤ℤ now
      → (q.alloc_timer i).interval ≡ false
      → r ≡ (pos 0, some (q.alloc_timer i).timer_data, release i (unlink i q))
      → Shifted q now r
  again :
      (i : ℕ)
      → Earliest q i
      → time_of q i ≤ℤ now
      → (q.alloc_timer i).interval ≡ true
      → r ≡ (pos 0, some (record ((q.alloc_timer i).timer_data) { destroy = 0 }), rearm i q)
      → Shifted q now r

first-Earliest :
    (q : TimerQueue) (i : ℕ) (rest : List ℕ) → IsValid q → q.active_list ≡ i ∷ rest → Earliest q i
first-Earliest q i rest v e =
    let s : IsSorted (time_of q) (i ∷ rest) = subst (IsSorted (time_of q)) e v.sorted in
    record {
      active = first_active q i rest v e;
      first = λ j a. elim (Bool-cases (i == j)) [
        | inl g ↦ ground (arith, g)
        | inr g ↦
            count-All (λ k. time_of q i ≤ℤ time_of q k) rest j s.0
              (ground (arith, v.flags j, ap (count j) e, a, g))
      ];
    }

shift_first-Shifted :
    (q : TimerQueue) (now : ℤ) (xs : List ℕ)
    → IsValid q
    → is_minus_one now ≡ false
    → q.active_list ≡ xs
    → Shifted q now (shift_first q now xs)
shift_first-Shifted q now [] v h e = idle (λ j. ground (arith, v.flags j, ap (count j) e)) refl
shift_first-Shifted q now (i ∷ rest) v h e =
    let f = first-Earliest q i rest v e in
    if_cases (Shifted q now) (is_minus_one now) _ _ (λ g. absurd (cc))
      (λ _.
        if_cases (Shifted q now) (ltb 0 (time_left now (time_of q i))) _ _
          (λ g.
            waiting i f (ground (arith, g))
              (ap (λ (n : ℕ). (to_int n, none, q)) (ground (arith, g))))
          (λ g.
            if_cases (Shifted q now) (q.alloc_timer i).interval _ _
              (λ b. again i f (ground (arith, g)) b refl)
              (λ b. once i f (ground (arith, g)) b refl)))

-- On a well formed queue, a shift at a time that is not -1 hands out a timer that is active, due, and
-- due no later than any other active timer; a one-shot timer is released with its data, an interval
-- timer is due again one period later and its data come without the destructor. If no timer is
-- active the result is -1, and if none is due the result is the time left, cut to 32 bits; in both
-- cases nothing is handed out and the queue is unchanged.
pub shift_timer-Shifted :
    (q : TimerQueue) (now : ℤ)
    → IsValid q
    → is_minus_one now ≡ false
    → Shifted q now (shift_timer q now)
unfolding shift_timer
shift_timer-Shifted q now v h = shift_first-Shifted q now q.active_list v h refl

-- A shift at a time that is not -1 returns what `NQTimerQueue_timeout` returns at that time, on every
-- queue.
shift_timer-queue_timeout :
    (q : TimerQueue) (now : ℤ)
    → is_minus_one now ≡ false
    → (shift_timer q now).0 ≡ queue_timeout q now
unfolding shift_timer queue_timeout
shift_timer-queue_timeout q now h = same q.active_list
  where
    same : (xs : List ℕ) → (shift_first q now xs).0 ≡ timeout_of q now xs
    same [] = refl
    same (i ∷ rest) = ground (arith, h)

-- On a well formed queue whose active timers are due less than 2 ^ 31 after a time that is not -1,
-- the result of a shift at that time tells what it did: it is 0 exactly if a timer was handed out, and
-- else it is -1 if no timer is active and the time that is left otherwise.
shift_timer_result :
    (q : TimerQueue) (now : ℤ)
    → IsValid q
    → is_minus_one now ≡ false
    → ((i : ℕ) → (q.alloc_timer i).active ≡ true → distance now (time_of q i) < 2 ^ 31)
    → ((d : TimerData) × ((shift_timer q now).0 ≡ pos 0) × ((shift_timer q now).1 ≡ some d))
      ⊎ (((shift_timer q now).1 ≡ none)
          × (((shift_timer q now).0 ≡ negsuc 0)
              ⊎ ((i : ℕ) × Earliest q i
                  × (0 < distance now (time_of q i))
                  × ((shift_timer q now).0 ≡ pos (distance now (time_of q i))))))
shift_timer_result q now v h near = by_case (shift_timer-Shifted q now v h)
  where
    by_case :
        Shifted q now (shift_timer q now)
        → ((d : TimerData) × ((shift_timer q now).0 ≡ pos 0) × ((shift_timer q now).1 ≡ some d))
          ⊎ (((shift_timer q now).1 ≡ none)
              × (((shift_timer q now).0 ≡ negsuc 0)
                  ⊎ ((i : ℕ) × Earliest q i
                      × (0 < distance now (time_of q i))
                      × ((shift_timer q now).0 ≡ pos (distance now (time_of q i))))))
    by_case (idle _ e) = inr (ap (λ r. r.1) e, inl (ap (λ r. r.0) e))
    by_case (waiting i f l e) = inr (
      ap (λ r. r.1) e,
      inr (i, f, omega (arith, l), ap (λ r. r.0) e ∙ to_int_small _ (near i f.active)),
    )
    by_case (once i f l b e) = inl ((q.alloc_timer i).timer_data, ap (λ r. r.0) e, ap (λ r. r.1) e)
    by_case (again i f l b e) =
        inl
          (record ((q.alloc_timer i).timer_data) { destroy = 0 }, ap (λ r. r.0) e, ap (λ r. r.1) e)

-- On a well formed queue, when the timer that is due first is due a multiple of 2 ^ 32 after the time,
-- a shift returns 0 as if it had handed out a timer, and hands out none.
pub shift_timer_wrap :
    (q : TimerQueue) (now : ℤ) (i : ℕ)
    → IsValid q
    → is_minus_one now ≡ false
    → Earliest q i
    → now <ℤ time_of q i
    → distance now (time_of q i) % 2 ^ 32 ≡ 0
    → shift_timer q now ≡ (pos 0, none, q)
shift_timer_wrap q now i v h f l w = elim (shift_timer-Shifted q now v h) [
  | idle g e ↦ absurd (cc (g i))
  | waiting j g k e ↦
      let same : distance now (time_of q j) ≡ distance now (time_of q i) =
        omega (arith, g.first i f.active, f.first j g.active) in
      e ∙ ap (λ (t : ℤ). (t, none, q)) (ap to_int same ∙ to_int_wrap _ w)
  | once j g k b e ↦ absurd (omega (arith, l, k, g.first i f.active))
  | again j g k b e ↦ absurd (omega (arith, l, k, g.first i f.active))
]
