-- ===== src/Timer/Run.antt =====
-- The operations keep the invariant, and so do all runs of them.
use libnetq.Prelude.{
  ℕ, ◌^◌, ◌<◌, ◌≡◌, refl, sym, ap, List, [], ◌∷◌, Option, none, some, Bool, true, false, ltb, arith,
  if_cases, Bool-cases, Option-cases, inl, inr,
}
use mathlib.Core.Path.{subst}
use libnetq.Prelude.Int.{ℤ, pos, int_ltb, ◌<ℤ◌, ◌+ℤ◌}
use libnetq.Timer.{
  TimerData, TimerQueue, create, start_timer, start_first, started, shift_timer, shift_first, fire,
  stop_timer, find_entry_by_id, is_minus_one, time_left, time_of, release, unlink, rearm,
}
use libnetq.Timer.Lists.{count}
use libnetq.Timer.Valid.{IsValid, release-IsValid, insert-IsValid, free_place, active_place}
use libnetq.Timer.Create.{create_lem}

-- The head of the active list is active, and the head of the free list is free.
pub first_active :
    (q : TimerQueue) (i : ℕ) (rest : List ℕ)
    → IsValid q
    → q.active_list ≡ i ∷ rest
    → (q.alloc_timer i).active ≡ true
first_active q i rest v e = ground (arith, v.flags i, ap (count i) e)

pub first_free :
    (q : TimerQueue) (i : ℕ) (rest : List ℕ) → q.free_list ≡ i ∷ rest → 0 < count i q.free_list
first_free q i rest e = ground (arith, ap (count i) e)

fire-IsValid :
    (q : TimerQueue) (i : ℕ) → IsValid q → (q.alloc_timer i).active ≡ true → IsValid (fire q i).2
fire-IsValid q i v a =
    let t = q.alloc_timer i in
    if_cases (λ (r : ℤ × Option TimerData × TimerQueue). IsValid r.2) t.interval
      (pos 0, some (record (t.timer_data) { destroy = 0 }), rearm i q)
      (pos 0, some t.timer_data, release i (unlink i q))
      (λ e.
        insert-IsValid q i v (record t { time_point = t.time_point +ℤ t.timeout })
          (active_place q i v a).2 a refl (v.periods i a))
      (λ e. release-IsValid q i v a)

shift_first-IsValid :
    (q : TimerQueue) (now : ℤ) (xs : List ℕ)
    → IsValid q
    → q.active_list ≡ xs
    → IsValid (shift_first q now xs).2
shift_first-IsValid q now [] v e = v
shift_first-IsValid q now (i ∷ rest) v e =
    let a = first_active q i rest v e in
    if_cases (λ (r : ℤ × Option TimerData × TimerQueue). IsValid r.2) (is_minus_one now) _ _
      (λ _. release-IsValid q i v a)
      (λ _.
        if_cases (λ (r : ℤ × Option TimerData × TimerQueue). IsValid r.2)
          (ltb 0 (time_left now (time_of q i))) _ _ (λ _. v) (λ _. fire-IsValid q i v a))

pub shift_timer-IsValid : (q : TimerQueue) (now : ℤ) → IsValid q → IsValid (shift_timer q now).2
unfolding shift_timer
shift_timer-IsValid q now v = shift_first-IsValid q now q.active_list v refl

start_first-IsValid :
    (q : TimerQueue) (b : Bool) (now timeout : ℤ) (d : TimerData) (xs : List ℕ)
    → IsValid q
    → pos 0 <ℤ timeout
    → q.free_list ≡ xs
    → IsValid (start_first q (started b now timeout d) xs).1
start_first-IsValid q b now timeout d [] v h e = v
start_first-IsValid q b now timeout d (i ∷ rest) v h e =
    insert-IsValid q i v (started b now timeout d (q.alloc_timer i))
      (free_place q i v (first_free q i rest e)).2 refl refl h

pub start_timer-IsValid :
    (q : TimerQueue) (b : Bool) (now timeout : ℤ) (o : Option TimerData)
    → IsValid q
    → IsValid (start_timer q b now timeout o).1
unfolding start_timer
start_timer-IsValid q b now timeout none v = v
start_timer-IsValid q b now timeout (some d) v = elim (Bool-cases (int_ltb (pos 0) timeout)) [
  | inl e ↦ rw e (start_first-IsValid q b now timeout d q.free_list v (ground (arith, e)) refl)
  | inr e ↦ rw e v
]

pub stop_timer_active :
    (q : TimerQueue) (identifier i : ℕ)
    → find_entry_by_id q identifier ≡ some i
    → (q.alloc_timer i).active ≡ true
    → stop_timer q identifier ≡ some ((q.alloc_timer i).timer_data, release i (unlink i q))
unfolding stop_timer
stop_timer_active q identifier i f a = rw (stop_timer, f, a) refl

pub stop_timer_missing :
    (q : TimerQueue) (identifier : ℕ)
    → find_entry_by_id q identifier ≡ none
    → stop_timer q identifier ≡ none
unfolding stop_timer
stop_timer_missing q identifier f = rw (stop_timer, f) refl

pub stop_timer_inactive :
    (q : TimerQueue) (identifier i : ℕ)
    → find_entry_by_id q identifier ≡ some i
    → (q.alloc_timer i).active ≡ false
    → stop_timer q identifier ≡ none
unfolding stop_timer
stop_timer_inactive q identifier i f a = rw (stop_timer, f, a) refl

-- What a successful stop has done.
pub stop_timer_inversion :
    (q : TimerQueue) (identifier : ℕ) (d : TimerData) (q' : TimerQueue)
    → stop_timer q identifier ≡ some (d, q')
    → (i : ℕ) × ((q.alloc_timer i).active ≡ true)
      × (q' ≡ release i (unlink i q))
      × (d ≡ (q.alloc_timer i).timer_data)
      × (find_entry_by_id q identifier ≡ some i)
unfolding stop_timer
stop_timer_inversion q identifier d q' e = elim (Option-cases (find_entry_by_id q identifier)) [
  | inl f ↦ absurd (cc (rw (stop_timer, f) at e))
  | inr (i, f) ↦ elim (Bool-cases (q.alloc_timer i).active) [
    | inl a ↦ let g = stop_timer_active q identifier i f a in (i, a, cc, cc, f)
    | inr a ↦ absurd (let g = stop_timer_inactive q identifier i f a in cc)
  ]
]

pub stop_timer-IsValid :
    (q : TimerQueue) (identifier : ℕ) (d : TimerData) (q' : TimerQueue)
    → IsValid q
    → stop_timer q identifier ≡ some (d, q')
    → IsValid q'
unfolding stop_timer
stop_timer-IsValid q identifier d q' v e =
    let (i, a, f, _, _) = stop_timer_inversion q identifier d q' e in
    subst IsValid (sym f) (release-IsValid q i v a)

-- One operation of a program that uses the queue, and the queues that such programs reach.
pub data Step (q q' : TimerQueue) : Type 0 where
  start :
      (b : Bool) (now timeout : ℤ) (o : Option TimerData)
      → q' ≡ (start_timer q b now timeout o).1
      → Step q q'
  stop : (identifier : ℕ) (d : TimerData) → stop_timer q identifier ≡ some (d, q') → Step q q'
  shift : (now : ℤ) → q' ≡ (shift_timer q now).2 → Step q q'

pub data Reach (zero_malloc : ℕ → Bool) (max_size : ℕ) : TimerQueue → Type 0 where
  made : (q : TimerQueue) → create zero_malloc max_size ≡ some q → Reach zero_malloc max_size q
  next :
      {q q' : TimerQueue} → Reach zero_malloc max_size q → Step q q' → Reach zero_malloc max_size q'

Step-IsValid : {q q' : TimerQueue} → Step q q' → IsValid q → IsValid q'
Step-IsValid {q} (start b now timeout o e) v =
    subst IsValid (sym e) (start_timer-IsValid q b now timeout o v)
Step-IsValid {q} {q'} (stop identifier d e) v = stop_timer-IsValid q identifier d q' v e
Step-IsValid {q} (shift now e) v = subst IsValid (sym e) (shift_timer-IsValid q now v)

-- Every queue that a program reaches from a new queue by starting, stopping and shifting timers is
-- well formed: each entry is in exactly one list, in the active one exactly if it is marked active,
-- under an id that leads to its place, and the active list is ordered by time.
pub Reach-IsValid :
    (zero_malloc : ℕ → Bool) (max_size : ℕ)
    → max_size < 2 ^ 64
    → {q : TimerQueue} → Reach zero_malloc max_size q
    → IsValid q
Reach-IsValid zero_malloc max_size h (made q e) = elim (create_lem zero_malloc max_size h) [
  | inl (f, _) ↦ absurd (cc)
  | inr (q', f, v, _, _, _) ↦ subst IsValid (cc) v
]
Reach-IsValid zero_malloc max_size h (next r s) =
    Step-IsValid s (Reach-IsValid zero_malloc max_size h r)
