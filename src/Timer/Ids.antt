-- ===== src/Timer/Ids.antt =====
-- Identifiers: from a start to the stop, and after it.
use libnetq.Prelude.{
  ℕ, ◌+◌, ◌-◌, ◌%◌, ◌^◌, ◌≤◌, ◌<◌, ◌≡◌, ◌≢◌, refl, sym, ap, ◌∙◌, List, [], ◌∷◌, Option, none, some,
  Bool, true, false, ltb, ◌==◌, arith, if_cases, Bool-cases, inl, inr, ◌⊎◌, bit_and, ==_iff,
}
use mathlib.Core.Path.{subst}
use libnetq.Prelude.Int.{ℤ, pos, int_ltb, ◌<ℤ◌}
use libnetq.Prelude.Bits.{bit_and_low}
use libnetq.Timer.{
  TimerData, TimerEntry, TimerQueue, start_timer, start_first, started, stop_timer,
  find_entry_by_id, is_valid, release, unlink, update, list_insert,
}
use libnetq.Timer.Valid.{IsValid, free_place, active_place, insert-IsValid, update_cases}
use libnetq.Timer.Run.{first_free, stop_timer_active, stop_timer_missing}
use native.Mathlib.Nat.{mod-eq_of_lt, mod_self, mod-lt, mod-add-mod, pow-le-pow_right}

step_mod :
    (n a : ℕ) → a < n → (((a + 1) % n ≡ a + 1) × (a + 1 < n)) ⊎ (((a + 1) % n ≡ 0) × (a + 1 ≡ n))
step_mod n a p = elim (Bool-cases (ltb (a + 1) n)) [
  | inl e ↦ let h : a + 1 < n = ground (arith, e) in inl (mod-eq_of_lt h, h)
  | inr e ↦
      let h : a + 1 ≡ n = ground (arith, e, p) in inr (ap (λ (t : ℕ). t % n) h ∙ mod_self n, h)
]

-- A remainder that steps by one tells where it is.
next_mod : (n a b : ℕ) → a < n → b < n → (a + 1) % n ≡ (b + 1) % n → a ≡ b
next_mod n a b p r e = ground (arith, step_mod n a p, step_mod n b r, e)

place_of_id : (n i x : ℕ) → i < n → 0 < x → x % n ≡ (i + 1) % n → (x - 1) % n ≡ i
place_of_id n i x h p e =
    let back : x - 1 + 1 ≡ x = omega arith in
    next_mod n ((x - 1) % n) i (mod-lt (x - 1) (omega arith)) h
      (mod-add-mod (x - 1) n 1 ∙ ap (λ (t : ℕ). t % n) back ∙ e)

-- The id of an entry leads to it, unless it is 0.
index_of_id :
    (q : TimerQueue) (i : ℕ)
    → IsValid q
    → i < q.alloc_count
    → 0 < (q.alloc_timer i).id
    → bit_and ((q.alloc_timer i).id - 1) (q.alloc_count - 1) ≡ i
index_of_id q i v h p =
    let x = (q.alloc_timer i).id - 1 in
    subst (λ (n : ℕ). bit_and x (n - 1) ≡ x % n) (sym v.power) (bit_and_low v.log_count x)
    ∙ place_of_id q.alloc_count i (q.alloc_timer i).id h p (v.ids i)

update_self : (f : ℕ → TimerEntry) (i : ℕ) (e : TimerEntry) → update f i e i ≡ e
update_self f i e =
    update_cases (λ k x. k ≡ i → x ≡ e) f i i e (λ _. refl) (λ r _. absurd (ground arith)) refl

pub find_entry_by_id_lem :
    (q : TimerQueue) (i : ℕ)
    → IsValid q
    → i < q.alloc_count
    → 0 < (q.alloc_timer i).id
    → find_entry_by_id q (q.alloc_timer i).id ≡ some i
unfolding find_entry_by_id
find_entry_by_id_lem q i v h p =
    let place = index_of_id q i v h p in
    ground (arith, place, ap (λ (j : ℕ). (q.alloc_timer j).id) place)

-- A released entry is no longer found under the id that it had.
pub find_entry_by_id_stale :
    (q : TimerQueue) (i : ℕ)
    → IsValid q
    → i < q.alloc_count
    → 0 < (q.alloc_timer i).id
    → find_entry_by_id (release i (unlink i q)) (q.alloc_timer i).id ≡ none
unfolding find_entry_by_id
find_entry_by_id_stale q i v h p =
    let place = index_of_id q i v h p in
    let n = q.alloc_count in
    let id = (q.alloc_timer i).id in
    let room : n ≤ 2 ^ 16 = omega (
      arith,
      v.power,
      pow-le-pow_right {n = 2} (omega arith) {i = v.log_count} {j = 16} v.log_count_le,
    ) in
    let other : (id + n) % 2 ^ 32 ≢ id = λ e. absurd (omega (arith, v.words i h, e, room, h)) in
    let moved : ((release i (unlink i q)).alloc_timer (bit_and (id - 1) (n - 1))).id
        ≡ (id + n) % 2 ^ 32 =
      ap (λ (j : ℕ). ((release i (unlink i q)).alloc_timer j).id) place ∙ ground arith in
    ground (arith, moved, other)

-- What a start does.
pub data Started (q : TimerQueue) (b : Bool) (now timeout : ℤ) (o : Option TimerData)
    (r : ℕ × TimerQueue) : Type 0 where
  refused : r ≡ (0, q) → Started q b now timeout o r
  entered :
      (d : TimerData) (i : ℕ)
      → o ≡ some d
      → pos 0 <ℤ timeout
      → (q.alloc_timer i).active ≡ false
      → i < q.alloc_count
      → r ≡ (
        (q.alloc_timer i).id,
        list_insert i (record (unlink i q) {
          alloc_timer = update q.alloc_timer i (started b now timeout d (q.alloc_timer i));
        }),
      )
      → Started q b now timeout o r

start_first-Started :
    (q : TimerQueue) (b : Bool) (now timeout : ℤ) (d : TimerData) (xs : List ℕ)
    → IsValid q
    → pos 0 <ℤ timeout
    → q.free_list ≡ xs
    → Started q b now timeout (some d) (start_first q (started b now timeout d) xs)
start_first-Started q b now timeout d [] v h e = refused refl
start_first-Started q b now timeout d (i ∷ rest) v h e =
    let place = free_place q i v (first_free q i rest e) in
    entered d i refl h (ground (arith, place.0, v.flags i)) place.2 refl

pub start_timer-Started :
    (q : TimerQueue) (b : Bool) (now timeout : ℤ) (o : Option TimerData)
    → IsValid q
    → Started q b now timeout o (start_timer q b now timeout o)
unfolding start_timer
start_timer-Started q b now timeout none v = refused refl
start_timer-Started q b now timeout (some d) v =
    if_cases (Started q b now timeout (some d)) (int_ltb (pos 0) timeout) _ _
      (λ e. start_first-Started q b now timeout d q.free_list v (ground (arith, e)) refl)
      (λ _. refused refl)

-- A timer that its id stops, once.
pub record Stoppable (q : TimerQueue) (id : ℕ) (d : TimerData) : Type 0 where
  pub stopped : TimerQueue
  pub stops : stop_timer q id ≡ some (d, stopped)
  pub valid_before : is_valid q id ≡ true
  pub invalid_after : is_valid stopped id ≡ false
  pub refused_after : stop_timer stopped id ≡ none

active-Stoppable :
    (q : TimerQueue) (i : ℕ)
    → IsValid q
    → (q.alloc_timer i).active ≡ true
    → 0 < (q.alloc_timer i).id
    → Stoppable q (q.alloc_timer i).id (q.alloc_timer i).timer_data
unfolding is_valid
active-Stoppable q i v a p =
    let (_, _, h) = active_place q i v a in
    let found = find_entry_by_id_lem q i v h p in
    let stale = find_entry_by_id_stale q i v h p in
    record {
      stopped = release i (unlink i q);
      stops = stop_timer_active q (q.alloc_timer i).id i found a;
      valid_before = rw (is_valid, found) refl;
      invalid_after = rw (is_valid, stale) refl;
      refused_after = stop_timer_missing (release i (unlink i q)) (q.alloc_timer i).id stale;
    }

-- On a well formed queue, a timer that is started under an id that is not 0 is stopped by that id: the
-- id is valid, the stop gives back the timer's data, and after it the id is not valid and a second
-- stop fails.
pub start_timer-Stoppable :
    (q : TimerQueue) (b : Bool) (now timeout : ℤ) (d : TimerData)
    → IsValid q
    → 0 < (start_timer q b now timeout (some d)).0
    → Stoppable (start_timer q b now timeout (some d)).1 (start_timer q b now timeout (some d)).0 d
start_timer-Stoppable q b now timeout d v p =
    by_case (start_timer-Started q b now timeout (some d) v)
  where
    by_case :
        Started q b now timeout (some d) (start_timer q b now timeout (some d))
        → Stoppable
            (start_timer q b now timeout (some d)).1
            (start_timer q b now timeout (some d)).0
            d
    by_case (refused f) = absurd (omega (arith, p, ap (λ r. r.0) f))
    by_case (entered d' i g t a h f) =
        let e = started b now timeout d' (q.alloc_timer i) in
        let q' = list_insert i (record (unlink i q) { alloc_timer = update q.alloc_timer i e }) in
        let self : q'.alloc_timer i ≡ e = update_self q.alloc_timer i e in
        let same : d ≡ d' = cc in
        let id_lem : (q'.alloc_timer i).id ≡ (q.alloc_timer i).id =
          ap (λ (t : TimerEntry). t.id) self in
        let s : Stoppable q' (q'.alloc_timer i).id (q'.alloc_timer i).timer_data =
          active-Stoppable q' i (insert-IsValid q i v e h refl refl t)
            (ap (λ (t : TimerEntry). t.active) self) (omega (arith, id_lem, p, ap (λ r. r.0) f)) in
        subst (λ (r : ℕ × TimerQueue). Stoppable r.1 r.0 d) (sym f)
          (subst (λ (n : ℕ). Stoppable q' n d) id_lem
            (subst (λ (x : TimerData). Stoppable q' (q'.alloc_timer i).id x)
              (ap (λ (t : TimerEntry). t.timer_data) self ∙ sym same) s))

-- What is found has the id that is looked for, which is not 0.
find_entry_by_id_sound :
    (q : TimerQueue) (x i : ℕ)
    → find_entry_by_id q x ≡ some i
    → ((q.alloc_timer i).id ≡ x) × (0 < x)
unfolding find_entry_by_id
find_entry_by_id_sound q x i e =
    let index = bit_and (x - 1) (q.alloc_count - 1) in
    elim (Bool-cases (x == 0)) [
      | inl f ↦ absurd (cc (rw f at e))
      | inr f ↦ elim (Bool-cases ((q.alloc_timer index).id == x)) [
        | inr g ↦ absurd (cc (rw (f, g) at e))
        | inl g ↦
            let same : index ≡ i = cc (rw (f, g) at e) in
            (
              subst (λ (j : ℕ). (q.alloc_timer j).id ≡ x) same
                  ((==_iff (q.alloc_timer index).id x).0 g),
              ground (arith, f),
            )
      ]
    ]

start_timer_first :
    (q : TimerQueue) (b : Bool) (now timeout : ℤ) (d : TimerData) (i : ℕ) (rest : List ℕ)
    → pos 0 <ℤ timeout
    → q.free_list ≡ i ∷ rest
    → start_timer q b now timeout (some d) ≡ start_first q (started b now timeout d) (i ∷ rest)
unfolding start_timer
start_timer_first q b now timeout d i rest h e =
    let test : int_ltb (pos 0) timeout ≡ true = ground (arith, h) in
    rw test (ap (start_first q (started b now timeout d)) e)

-- An id that has wrapped to 0 loses a timer: when the entry at the front of the free list has the id 0,
-- a start with a positive timeout returns 0, which means that no timer was started; but the entry is
-- then active, and no id finds it, so that nothing can stop it.
pub start_timer_lost :
    (q : TimerQueue) (b : Bool) (now timeout : ℤ) (d : TimerData) (i : ℕ) (rest : List ℕ)
    → q.free_list ≡ i ∷ rest
    → (q.alloc_timer i).id ≡ 0
    → pos 0 <ℤ timeout
    → ((start_timer q b now timeout (some d)).0 ≡ 0)
      × (((start_timer q b now timeout (some d)).1.alloc_timer i).active ≡ true)
      × ((x : ℕ) → find_entry_by_id (start_timer q b now timeout (some d)).1 x ≢ some i)
start_timer_lost q b now timeout d i rest e z h =
    let f = start_timer_first q b now timeout d i rest h e in
    let r = start_first q (started b now timeout d) (i ∷ rest) in
    let self : r.1.alloc_timer i ≡ started b now timeout d (q.alloc_timer i) =
      update_self q.alloc_timer i (started b now timeout d (q.alloc_timer i)) in
    let id_lem : (r.1.alloc_timer i).id ≡ 0 = ap (λ (t : TimerEntry). t.id) self ∙ z in
    subst
      (λ (r : ℕ × TimerQueue).
        (r.0 ≡ 0)
        × ((r.1.alloc_timer i).active ≡ true)
        × ((x : ℕ) → find_entry_by_id r.1 x ≢ some i))
      (sym f)
      (
        z,
        ap (λ (t : TimerEntry). t.active) self,
        λ x g. absurd (omega (arith, find_entry_by_id_sound r.1 x i g, id_lem)),
      )
