-- ===== src/Looper/Tests.antt =====
-- The loops on a queue with one timer.
use libnetq.Timer.Lists.{erase}
use libnetq.Timer.Run.{stop_timer-IsValid, stop_timer_inversion}
use libnetq.Prelude.{
  ℕ, List, Option, Option-cases, inl, inr, ap, length, ◌≤◌, ◌≡◌, [], ◌∷◌, none, some, arith,
}
use libnetq.Timer.{TimerData, TimerQueue, stop_timer}
use libnetq.Timer.Valid.{IsValid}
use libnetq.Timer.Tests.{one_timer, ten-IsValid}
use libnetq.Looper.{finalize_timers}
use libnetq.Looper.Finalize.{HandedOut, finalize_timers_lem}

-- Destructors that stop the timer with the identifier 1.
abbrev stopped : TimerQueue → Option (TimerData × TimerQueue) → TimerQueue
stopped q none = q
stopped q (some (d, q')) = q'

abbrev stop_one : Option TimerData → TimerQueue → TimerQueue
stop_one e q = stopped q (stop_timer q 1)

length-erase_le : (i : ℕ) (xs : List ℕ) → length (erase i xs) ≤ length xs
unfolding erase
length-erase_le i [] = omega arith
length-erase_le i (x ∷ xs) = ground (arith, length-erase_le i xs)

stop_one_keeps :
    (e : Option TimerData) (q : TimerQueue)
    → IsValid q
    → IsValid (stop_one e q) × (length (stop_one e q).active_list ≤ length q.active_list)
stop_one_keeps e q v = elim (Option-cases (stop_timer q 1)) [
  | inl f ↦ rw f (v, omega arith)
  | inr ((d, q'), f) ↦
      let (i, a, g, _, _) = stop_timer_inversion q 1 d q' f in
      let same : length q'.active_list ≡ length (erase i q.active_list) =
        ap (λ r. length r.active_list) g in
      rw f (stop_timer-IsValid q 1 d q' v f, omega (arith, same, length-erase_le i q.active_list))
]

finalize_timers_lem_example :
    (events : List (Option TimerData)) × (q' : TimerQueue) × (finalize_timers stop_one 2 none
        (one_timer 10)
      ≡ some (events, q'))
    × HandedOut stop_one events (one_timer 10) q'
    × (q'.active_list ≡ [])
    × IsValid q'
finalize_timers_lem_example =
    finalize_timers_lem stop_one stop_one_keeps 2 none (one_timer 10) ten-IsValid (omega arith)
