-- ===== src/Looper/Finalize.antt =====
-- The timers in `NQLooper_finalize`: which are handed out, and that none is left.
use libnetq.Prelude.{
  ℕ, zero, suc, ◌≤◌, ◌<◌, ◌≡◌, refl, ap, ◌∙◌, List, [], ◌∷◌, arith, length, Option, some,
}
use libnetq.Prelude.Int.{pos, negsuc}
use libnetq.Timer.{TimerData, TimerQueue, release, unlink, shift_timer, shift_first}
use libnetq.Timer.Lists.{erase}
use libnetq.Timer.Valid.{IsValid, release-IsValid}
use libnetq.Timer.Run.{first_active}
use libnetq.Looper.{finalize_timers, map_events}

erase_first : (i : ℕ) (rest : List ℕ) → erase i (i ∷ rest) ≡ rest
unfolding erase
erase_first i rest = ground arith

shift_all :
    (q : TimerQueue) (i : ℕ) (rest : List ℕ)
    → q.active_list ≡ i ∷ rest
    → shift_timer q (negsuc 0) ≡ (pos 0, some (q.alloc_timer i).timer_data, release i (unlink i q))
unfolding shift_timer
shift_all q i rest e = ap (shift_first q (negsuc 0)) e

module _ (between : Option TimerData → TimerQueue → TimerQueue) where
  -- The data with which destructors were called, from one queue to another: each time those of the
  -- timer that was first in the list of active ones, and at the end none was active.
  abbrev pub HandedOut : List (Option TimerData) → TimerQueue → TimerQueue → Type 0
  HandedOut [] q q' = (q ≡ q') × (q.active_list ≡ [])
  HandedOut (e ∷ events) q q' =
      (i : ℕ) × (rest : List ℕ) × (q.active_list ≡ i ∷ rest)
      × (e ≡ some (q.alloc_timer i).timer_data)
      × HandedOut events (between e (release i (unlink i q))) q'

  finalize_step :
      (fuel : ℕ) (old : Option TimerData) (q q' : TimerQueue) (d : TimerData)
      → shift_timer q (negsuc 0) ≡ (pos 0, some d, q')
      → finalize_timers between (suc fuel) old q
        ≡ map_events (some d) (finalize_timers between fuel (some d) (between (some d) q'))
  unfolding finalize_timers
  finalize_step fuel old q q' d e = rw e refl

  module _
      (keep : (e : Option TimerData) (q : TimerQueue)
        → IsValid q
        → IsValid (between e q) × (length (between e q).active_list ≤ length q.active_list)) where
    finalize_list :
        (fuel : ℕ) (old : Option TimerData) (q : TimerQueue) (xs : List ℕ)
        → IsValid q
        → q.active_list ≡ xs
        → length q.active_list < fuel
        → (events : List (Option TimerData)) × (q' : TimerQueue) × (finalize_timers between fuel old
              q
            ≡ some (events, q'))
          × HandedOut events q q'
          × (q'.active_list ≡ [])
          × IsValid q'
    unfolding finalize_timers shift_timer
    finalize_list zero old q xs v e h = absurd (omega arith)
    finalize_list (suc fuel) old q [] v e h = ([], q, rw e refl, (refl, e), e, v)
    finalize_list (suc fuel) old q (i ∷ rest) v e h =
        let d = (q.alloc_timer i).timer_data in
        let left = release i (unlink i q) in
        let shorter : left.active_list ≡ rest = ap (erase i) e ∙ erase_first i rest in
        let (w, fewer) = keep (some d) left (release-IsValid q i v (first_active q i rest v e)) in
        let (events, r, f, handed, g, u) =
          finalize_list fuel (some d) (between (some d) left) (between (some d) left).active_list w
            refl (omega (arith, h, fewer, ap length e, ap length shorter)) in
        (
          some d ∷ events,
          r,
          finalize_step fuel old q left d (shift_all q i rest e) ∙ ap (map_events (some d)) f,
          (i, rest, e, refl, handed),
          g,
          u,
        )

-- When a looper is finalised on a well formed queue, and what the destructors and other threads do to
-- the queue between two rounds keeps it well formed and makes no more timers active than there are,
-- one round more than there are active timers is enough: the loop ends, no timer is left active, and
-- each destructor was called with the data of the timer that was first in the ordered list of active
-- timers then.
pub finalize_timers_lem :
    (between : Option TimerData → TimerQueue → TimerQueue)
    (keep : (e : Option TimerData) (q : TimerQueue)
      → IsValid q
      → IsValid (between e q) × (length (between e q).active_list ≤ length q.active_list))
    (fuel : ℕ) (old : Option TimerData) (q : TimerQueue)
    → IsValid q
    → length q.active_list < fuel
    → (events : List (Option TimerData)) × (q' : TimerQueue) × (finalize_timers between fuel old q
        ≡ some (events, q'))
      × HandedOut between events q q'
      × (q'.active_list ≡ [])
      × IsValid q'
finalize_timers_lem between keep fuel old q v h =
    finalize_list between keep fuel old q q.active_list v refl h
