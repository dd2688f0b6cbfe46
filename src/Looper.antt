-- ===== src/Looper.antt =====
-- The timers of a looper in libnetq/Looper.c: the loop that performs the timers that are due, and the
-- loop that destroys the timers that are left.
-- A call of a timer's `handle` and `destroy` is an event; between two rounds the lock is free, and
-- what the callbacks and other threads do to the queue there is a parameter.
pub mod Due
pub mod Perform
pub mod Finalize
mod Tests
use libnetq.Prelude.{
  ℕ, zero, suc, List, [], ◌∷◌, Option, none, some, Bool, true, false, not, if◌then◌else◌, ◌==◌,
}
use libnetq.Prelude.Int.{ℤ, pos, negsuc}
use libnetq.Timer.{TimerData, TimerQueue, shift_timer}

-- The variable `data` after a shift: what was written, or else what it held before.
abbrev pub written : Option TimerData → Option TimerData → Option TimerData
written none old = old
written (some d) old = some d

abbrev pub is_zero : ℤ → Bool
is_zero (pos n) = n == 0
is_zero (negsuc n) = false

abbrev pub is_negative : ℤ → Bool
is_negative (pos n) = false
is_negative (negsuc n) = true

abbrev pub map_events {ℓ} :
    {A : Type ℓ} → A → Option (List A × TimerQueue) → Option (List A × TimerQueue)
map_events e none = none
map_events e (some (es, q)) = some (e ∷ es, q)

module _ (between : Option TimerData → TimerQueue → TimerQueue) where
  -- `NQLooper_performTimer` from the start of a round, with the variable `data`, which is `none` while
  -- nothing has been written to it. The events, in order, are the data whose callbacks are called;
  -- the result is `none` if the fuel runs out.
  unfoldable pub perform_timer :
      ℕ → ℤ → Option TimerData → TimerQueue → Option (List (Option TimerData) × TimerQueue)
  perform_timer zero now old q = none
  perform_timer (suc fuel) now old q =
      let (timeout, w, q') = shift_timer q now in
      let rest =
        map_events (written w old)
          (perform_timer fuel now (written w old) (between (written w old) q')) in
      if is_zero timeout then rest else some ([], q')

  -- The loop over the timers in `NQLooper_finalize`, likewise.
  unfoldable pub finalize_timers :
      ℕ → Option TimerData → TimerQueue → Option (List (Option TimerData) × TimerQueue)
  finalize_timers zero old q = none
  finalize_timers (suc fuel) old q =
      let (timeout, w, q') = shift_timer q (negsuc 0) in
      let rest =
        map_events (written w old)
          (finalize_timers fuel (written w old) (between (written w old) q')) in
      if is_negative timeout then some ([], q') else rest
