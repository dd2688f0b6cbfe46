-- ===== src/Looper/Perform.antt =====
-- `NQLooper_performTimer`: the loop ends, and what it has done then.
use libnetq.Prelude.{ℕ, ◌^◌, ◌<◌, ◌≡◌, List, All, true, Option, some}
use libnetq.Prelude.Int.{ℤ, pos, ◌<ℤ◌, distance}
use libnetq.Timer.{TimerData, TimerQueue, time_of}
use libnetq.Timer.Valid.{IsValid}
use libnetq.Looper.Due.{due}

abbrev pub queue_due : ℤ → TimerQueue → ℕ
queue_due now q = due now (time_of q) q.active_list

-- The active timers are due, and due again, in less than 2 ^ 31.
pub record Near (now : ℤ) (q : TimerQueue) : Type 0 where
  pub soon : (i : ℕ) → (q.alloc_timer i).active ≡ true → distance now (time_of q i) < 2 ^ 31
  pub short :
      (i : ℕ)
      → (q.alloc_timer i).active ≡ true
      → distance (pos 0) (q.alloc_timer i).timeout < 2 ^ 31

-- What the loop has done: each call was of data that were handed out, and no timer is due.
pub record Performed (now : ℤ) (r : Option (List (Option TimerData) × TimerQueue)) : Type 0 where
  pub events : List (Option TimerData)
  pub left : TimerQueue
  pub ended : r ≡ some (events, left)
  pub handed_out : All (λ e. (d : TimerData) × (e ≡ some d)) events
  pub valid : IsValid left
  pub near : Near now left
  pub later : (i : ℕ) → (left.alloc_timer i).active ≡ true → now <ℤ time_of left i
