-- ===== src/Dispatch.antt =====
-- libnetq/DispatchQueue.c, and `NQLooper_performWork` of libnetq/Looper.c.
-- The entries of the free list hold nothing, so the list is their number; a call of `handle` and
-- `destroy` is an event.
pub mod Fifo
pub mod Work
pub mod Leak
mod Tests
use libnetq.Prelude.{
  ℕ, zero, suc, ◌+◌, ◌-◌, ◌^◌, List, [], ◌∷◌, ◌++◌, Option, none, some, Bool, true, false, min, leb,
  ltb, ◌==◌, if◌then◌else◌, length,
}

-- `userdata`, `handle` and `destroy`: pointers, 0 for NULL.
pub record DispatchData : Type 0 where
  pub userdata : ℕ
  pub handle : ℕ
  pub destroy : ℕ

pub record DispatchQueue : Type 0 where
  pub work_list : List DispatchData
  pub free_list : ℕ
  pub size : ℕ
  pub total : ℕ

-- NQ_DISPATCH_QUEUE_MAX
abbrev pub queue_max : ℕ
queue_max = 2 ^ 32 - 2

unfoldable pub queue_init : DispatchQueue
queue_init = record { work_list = []; free_list = 0; size = 0; total = 0 }

-- The loop of `NQDispatchQueue_create`: `malloc` tells of each further entry whether it is allocated.
unfoldable pub fill : (ℕ → Bool) → ℕ → ℕ → DispatchQueue → DispatchQueue
fill malloc zero index q = q
fill malloc (suc rounds) index q =
    let more =
      fill malloc rounds (index + 1)
        (record q { free_list = q.free_list + 1; total = q.total + 1 }) in
    if malloc index then more else q

-- `allocated` tells whether the queue itself is allocated.
unfoldable pub create : Bool → (ℕ → Bool) → ℕ → Option DispatchQueue
create allocated malloc capacity =
    if allocated then some (fill malloc (min capacity queue_max) 0 queue_init) else none

abbrev pub enqueue : DispatchData → DispatchQueue → DispatchQueue
enqueue d q = record q { work_list = q.work_list ++ (d ∷ []); size = q.size + 1 }

-- `none` is the result false, which leaves the queue as it is. `malloc` tells whether a new entry is
-- allocated if it is asked for.
unfoldable pub push : Bool → DispatchData → DispatchQueue → Option DispatchQueue
push malloc d q =
    if q.free_list == 0
    then (if leb queue_max (q.total + 1)
        then none
        else if malloc
        then some (enqueue d (record q { total = q.total + 1 }))
        else none)
    else some (enqueue d (record q { free_list = q.free_list - 1 }))

abbrev pub shift_first : DispatchQueue → List DispatchData → Option (DispatchData × DispatchQueue)
shift_first q [] = none
shift_first q (d ∷ rest) = some (d, record q { work_list = rest; size = q.size - 1 })

-- `NQDispatchQueue_shiftEntry` and `NQDispatchQueue_shift`: `none` is the result false. The entry goes
-- into no list, and is not freed.
unfoldable pub shift : DispatchQueue → Option (DispatchData × DispatchQueue)
shift q = shift_first q q.work_list

pub data Event : Type 0 where
  perform : DispatchData → Event
  clean : DispatchData → Event

abbrev pub map_events {ℓ} : {A : Type ℓ} → Event → Option (List Event × A) → Option (List Event × A)
map_events e none = none
map_events e (some (es, a)) = some (e ∷ es, a)

-- `NQDispatchQueue_finalize`: the calls; the entries of both lists are freed.
unfoldable pub finalize_list : List DispatchData → List Event
finalize_list [] = []
finalize_list (d ∷ rest) = clean d ∷ finalize_list rest

unfoldable pub finalize : DispatchQueue → List Event
finalize q = finalize_list q.work_list

-- `between` is what the callbacks and other threads do to the queue after a round.
module _ (between : DispatchData → DispatchQueue → DispatchQueue) where
  -- `NQDispatchQueue_performAll`, with fuel.
  unfoldable pub perform_all : ℕ → DispatchQueue → Option (List Event × DispatchQueue)
  perform_all zero q = none
  perform_all (suc fuel) q = elim (shift q) [
    | none ↦ some ([], q)
    | some (d, q') ↦ map_events (perform d) (perform_all fuel (between d q'))
  ]

  -- `NQDispatchQueue_cleanAll`, with fuel.
  unfoldable pub clean_all : ℕ → DispatchQueue → Option (List Event × DispatchQueue)
  clean_all zero q = none
  clean_all (suc fuel) q = elim (shift q) [
    | none ↦ some ([], q)
    | some (d, q') ↦ map_events (clean d) (clean_all fuel (between d q'))
  ]

  -- The loop of `NQLooper_performWork`, with the rounds that are left.
  unfoldable pub work_loop : ℕ → DispatchQueue → List Event × DispatchQueue
  work_loop zero q = ([], q)
  work_loop (suc rounds) q = elim (shift q) [
    | none ↦ ([], q)
    | some (d, q') ↦ let (es, left) = work_loop rounds (between d q') in (perform d ∷ es, left)
  ]

  -- `NQLooper_performWork`: as many rounds as there are entries at the start.
  unfoldable pub perform_work : DispatchQueue → List Event × DispatchQueue
  perform_work q = if q.size == 0 then ([], q) else work_loop q.size q
