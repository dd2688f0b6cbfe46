-- ===== src/Timer/Tests.antt =====
-- Concrete queues of two entries.
use libnetq.Prelude.{ℕ, ◌^◌, ◌<◌, ◌≡◌, ◌≢◌, refl, [], ◌∷◌, none, some, true, false, arith}
use mathlib.Core.Path.{subst}
use libnetq.Prelude.Int.{pos, ◌+ℤ◌, distance}
use libnetq.Timer.{
  TimerData, TimerQueue, queue_init, create, start_timer, shift_timer, find_entry_by_id, update,
  initial_entry, init_free, get_fls64, get_clz64, clz_loop, time_of,
}
use libnetq.Timer.Lists.{insert_by, erase}
use libnetq.Timer.Valid.{IsValid}
use libnetq.Timer.Create.{queue_init-IsValid}
use libnetq.Timer.Run.{made, next, start, start_timer-IsValid, Reach-IsValid}
use libnetq.Timer.Shift.{Shifted, Earliest, shift_timer-Shifted, shift_timer_wrap}
use libnetq.Timer.Ids.{Stoppable, start_timer-Stoppable, start_timer_lost}

abbrev pub some_data : TimerData
some_data = record { userdata = 7; handle = 8; destroy = 9 }

-- A queue of two entries, of which the first is a timer that is due at `t`.
abbrev pub one_timer : ℕ → TimerQueue
one_timer t = record {
  active_list = 0 ∷ [];
  free_list = 1 ∷ [];
  alloc_count = 2;
  alloc_timer = update initial_entry 0 (record {
    active = true;
    interval = false;
    id = 1;
    timeout = pos t;
    time_point = pos t;
    timer_data = some_data;
  });
}

start_10 : (start_timer (queue_init 2) false (pos 0) (pos 10) (some some_data)).1 ≡ one_timer 10
unfolding start_timer queue_init init_free insert_by erase ◌+ℤ◌
start_10 = refl

start_far :
    (start_timer (queue_init 2) false (pos 0) (pos (2 ^ 32)) (some some_data)).1
    ≡ one_timer (2 ^ 32)
unfolding start_timer queue_init init_free insert_by erase ◌+ℤ◌
start_far = refl

one_timer-IsValid :
    (t : ℕ)
    → (start_timer (queue_init 2) false (pos 0) (pos t) (some some_data)).1 ≡ one_timer t
    → IsValid (one_timer t)
one_timer-IsValid t e = subst IsValid e (
    start_timer-IsValid (queue_init 2) false (pos 0) (pos t) (some some_data)
      (queue_init-IsValid 1 (omega arith)))

pub ten-IsValid : IsValid (one_timer 10)
ten-IsValid = one_timer-IsValid 10 start_10

far-IsValid : IsValid (one_timer (2 ^ 32))
far-IsValid = one_timer-IsValid (2 ^ 32) start_far

create_3 : create (λ n. true) 1 ≡ some (queue_init 2)
unfolding create get_fls64 get_clz64 clz_loop
create_3 = refl

Reach-IsValid_example : IsValid (start_timer (queue_init 2) true (pos 3) (pos 4) (some some_data)).1
Reach-IsValid_example =
    Reach-IsValid (λ n. true) 1 (omega arith)
      (next (made (queue_init 2) create_3) (start true (pos 3) (pos 4) (some some_data) refl))

fires : shift_timer (one_timer 10) (pos 12) ≡ shift_timer (one_timer 10) (pos 10)
unfolding shift_timer
fires = refl

shift_timer-Shifted_example : Shifted (one_timer 10) (pos 12) (shift_timer (one_timer 10) (pos 12))
shift_timer-Shifted_example = shift_timer-Shifted (one_timer 10) (pos 12) ten-IsValid refl

near :
    (i : ℕ)
    → ((one_timer 10).alloc_timer i).active ≡ true
    → distance (pos 4) (time_of (one_timer 10) i) < 2 ^ 31
near i a = ground arith

one_timer-Earliest : (t : ℕ) → Earliest (one_timer t) 0
one_timer-Earliest t = record { active = refl; first = λ j a. ground arith }

shift_timer_wrap_example :
    shift_timer (one_timer (2 ^ 32)) (pos 0) ≡ (pos 0, none, one_timer (2 ^ 32))
shift_timer_wrap_example =
    shift_timer_wrap (one_timer (2 ^ 32)) (pos 0) 0 far-IsValid refl (one_timer-Earliest (2 ^ 32))
      (omega arith) (omega arith)

start_timer-Stoppable_example :
    Stoppable
      (start_timer (queue_init 2) false (pos 0) (pos 5) (some some_data)).1
      (start_timer (queue_init 2) false (pos 0) (pos 5) (some some_data)).0
      some_data
start_timer-Stoppable_example =
    start_timer-Stoppable (queue_init 2) false (pos 0) (pos 5) some_data
      (queue_init-IsValid 1 (omega arith)) (unfold start_timer queue_init init_free in omega arith)

-- A queue of two entries whose second one has come back to the id 0.
abbrev wrapped : TimerQueue
wrapped = record {
  active_list = [];
  free_list = 1 ∷ 0 ∷ [];
  alloc_count = 2;
  alloc_timer = update initial_entry 1 (record (initial_entry 1) { id = 0 });
}

start_timer_lost_example :
    ((start_timer wrapped false (pos 0) (pos 5) (some some_data)).0 ≡ 0)
    × (((start_timer wrapped false (pos 0) (pos 5) (some some_data)).1.alloc_timer 1).active ≡ true)
    × ((x : ℕ)
        → find_entry_by_id (start_timer wrapped false (pos 0) (pos 5) (some some_data)).1 x
          ≢ some 1)
start_timer_lost_example =
    start_timer_lost wrapped false (pos 0) (pos 5) some_data 1 (0 ∷ []) refl refl (omega arith)
