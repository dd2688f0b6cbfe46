-- ===== src/Timer.antt =====
-- libnetq/TimerQueue.c and the part of libnetq/BitOps.h that it uses: timers in a block of entries,
-- some in the active list, by the time at which they are due, the others in the free list.
-- A list of entries is the list of their places in `allocTimer`; times are integers, and the times
-- that an `int` returns are cut to 32 bits.
pub mod Lists
pub mod Valid
pub mod Create
pub mod Run
pub mod Shift
pub mod Ids
pub mod Tests
use libnetq.Prelude.{
  ℕ, zero, suc, ◌+◌, ◌-◌, ◌*◌, ◌/◌, ◌%◌, ◌^◌, List, [], ◌∷◌, ◌++◌, Option, none, some, Bool, true,
  false, not, ◌&&◌, bit_and, ltb, leb, ◌==◌, if◌then◌else◌,
}
use libnetq.Prelude.Int.{ℤ, pos, negsuc, ◌+ℤ◌, int_ltb, distance, of_word}
use libnetq.Timer.Lists.{erase, insert_by}

-- `userdata`, `handle` and `destroy`: pointers, 0 for NULL.
pub record TimerData : Type 0 where
  pub userdata : ℕ
  pub handle : ℕ
  pub destroy : ℕ

-- `active` and `interval` are the bits NQ_TIMER_ACTIVE and NQ_TIMER_INTERVAL of `flags`.
pub record TimerEntry : Type 0 where
  pub active : Bool
  pub interval : Bool
  pub id : ℕ
  pub timeout : ℤ
  pub time_point : ℤ
  pub timer_data : TimerData

-- `alloc_timer` is meant at the places below `alloc_count`.
pub record TimerQueue : Type 0 where
  pub active_list : List ℕ
  pub free_list : List ℕ
  pub alloc_count : ℕ
  pub alloc_timer : ℕ → TimerEntry

abbrev pub update : (ℕ → TimerEntry) → ℕ → TimerEntry → ℕ → TimerEntry
update f i e j = if i == j then e else f j

-- The cast of an `int64_t` that is positive to `int`.
abbrev pub to_int : ℕ → ℤ
to_int n = of_word 31 (n % 2 ^ 32)

-- `NQGetClz64` and `NQGetFls64`.
unfoldable pub clz_loop : ℕ → ℕ → ℕ
clz_loop zero x = 0
clz_loop (suc i) x = if x / 2 ^ i == 0 then suc (clz_loop i x) else 0

unfoldable pub get_clz64 : ℕ → ℕ
get_clz64 = clz_loop 64

unfoldable pub get_fls64 : ℕ → ℕ
get_fls64 x = 64 - get_clz64 x

-- What `NQZeroMalloc` leaves in an entry, and `entry->id = index + 1`.
abbrev pub initial_entry : ℕ → TimerEntry
initial_entry index = record {
  active = false;
  interval = false;
  id = index + 1;
  timeout = pos 0;
  time_point = pos 0;
  timer_data = record { userdata = 0; handle = 0; destroy = 0 };
}

-- The loop of `NQTimerQueue_init`, with `rounds` entries left.
unfoldable pub init_free : ℕ → ℕ → List ℕ → List ℕ
init_free zero index free = free
init_free (suc rounds) index free = init_free rounds (index + 1) (free ++ (index ∷ []))

unfoldable pub queue_init : ℕ → TimerQueue
queue_init alloc_count = record {
  active_list = [];
  free_list = init_free alloc_count 0 [];
  alloc_count = alloc_count;
  alloc_timer = initial_entry;
}

-- `zero_malloc` tells whether a queue of so many entries can be allocated.
module _ (zero_malloc : ℕ → Bool) where
  unfoldable pub create : ℕ → Option TimerQueue
  create max_size =
      if max_size == 0
      then none
      else if ltb 16 (get_fls64 max_size)
      then none
      else if zero_malloc (2 ^ get_fls64 max_size)
      then some (queue_init (2 ^ get_fls64 max_size))
      else none

-- `NQListHead_remove(&entry->list)`, whichever list the entry is in.
abbrev pub unlink : ℕ → TimerQueue → TimerQueue
unlink i q = record q { active_list = erase i q.active_list; free_list = erase i q.free_list }

abbrev pub released : ℕ → TimerEntry → TimerEntry
released alloc_count e = record e { id = (e.id + alloc_count) % 2 ^ 32; active = false }

-- A new id, the active flag cleared, and the entry at the back of the free list.
abbrev pub release : ℕ → TimerQueue → TimerQueue
release i q = record q {
  free_list = q.free_list ++ (i ∷ []);
  alloc_timer = update q.alloc_timer i (released q.alloc_count (q.alloc_timer i));
}

abbrev pub time_of : TimerQueue → ℕ → ℤ
time_of q i = (q.alloc_timer i).time_point

abbrev pub list_insert : ℕ → TimerQueue → TimerQueue
list_insert i q = record q { active_list = insert_by (time_of q) i q.active_list }

-- `now < t` gives `t - now`, else 0.
abbrev pub time_left : ℤ → ℤ → ℕ
time_left now t = if int_ltb now t then distance now t else 0

abbrev pub timeout_of : TimerQueue → ℤ → List ℕ → ℤ
timeout_of q now [] = negsuc 0
timeout_of q now (i ∷ rest) =
    if int_ltb now (time_of q i) then to_int (distance now (time_of q i)) else pos 0

unfoldable pub queue_timeout : TimerQueue → ℤ → ℤ
queue_timeout q now = timeout_of q now q.active_list

abbrev pub is_minus_one : ℤ → Bool
is_minus_one (pos n) = false
is_minus_one (negsuc n) = n == 0

abbrev pub rearmed : TimerEntry → TimerEntry
rearmed e = record e { time_point = e.time_point +ℤ e.timeout }

-- An interval timer is due again one period later.
abbrev pub rearm : ℕ → TimerQueue → TimerQueue
rearm i q =
    list_insert i
      (record (unlink i q) { alloc_timer = update q.alloc_timer i (rearmed (q.alloc_timer i)) })

-- The result, what is written to `*data` if it is written, and the queue.
abbrev pub fire : TimerQueue → ℕ → ℤ × Option TimerData × TimerQueue
fire q i =
    let e = q.alloc_timer i in
    if e.interval
    then (pos 0, some (record (e.timer_data) { destroy = 0 }), rearm i q)
    else (pos 0, some e.timer_data, release i (unlink i q))

abbrev pub shift_first : TimerQueue → ℤ → List ℕ → ℤ × Option TimerData × TimerQueue
shift_first q now [] = (negsuc 0, none, q)
shift_first q now (i ∷ rest) =
    if is_minus_one now
    then (pos 0, some (q.alloc_timer i).timer_data, release i (unlink i q))
    else if ltb 0 (time_left now (time_of q i))
    then (to_int (time_left now (time_of q i)), none, q)
    else fire q i

unfoldable pub shift_timer : TimerQueue → ℤ → ℤ × Option TimerData × TimerQueue
shift_timer q now = shift_first q now q.active_list

-- The entry that a start takes, which is `i`.
abbrev pub started : Bool → ℤ → ℤ → TimerData → TimerEntry → TimerEntry
started is_interval now timeout d e = record e {
  active = true;
  interval = is_interval;
  timeout = timeout;
  time_point = timeout +ℤ now;
  timer_data = d;
}

abbrev pub start_first : TimerQueue → (TimerEntry → TimerEntry) → List ℕ → ℕ × TimerQueue
start_first q set [] = (0, q)
start_first q set (i ∷ rest) = (
  (q.alloc_timer i).id,
  list_insert i
      (record (unlink i q) { alloc_timer = update q.alloc_timer i (set (q.alloc_timer i)) }),
)

unfoldable pub start_timer : TimerQueue → Bool → ℤ → ℤ → Option TimerData → ℕ × TimerQueue
start_timer q is_interval now timeout none = (0, q)
start_timer q is_interval now timeout (some d) =
    if int_ltb (pos 0) timeout
    then start_first q (started is_interval now timeout d) q.free_list
    else (0, q)

unfoldable pub find_entry_by_id : TimerQueue → ℕ → Option ℕ
find_entry_by_id q identifier =
    if identifier == 0
    then none
    else let index = bit_and (identifier - 1) (q.alloc_count - 1) in
      if (q.alloc_timer index).id == identifier then some index else none

-- `none` is the result false.
unfoldable pub stop_timer : TimerQueue → ℕ → Option (TimerData × TimerQueue)
stop_timer q identifier = elim (find_entry_by_id q identifier) [
  | none ↦ none
  | some i ↦
      if (q.alloc_timer i).active
      then some ((q.alloc_timer i).timer_data, release i (unlink i q))
      else none
]

unfoldable pub is_valid : TimerQueue → ℕ → Bool
is_valid q identifier = elim (find_entry_by_id q identifier) [ none ↦ false | some i ↦ true ]
