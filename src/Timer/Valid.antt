-- ===== src/Timer/Valid.antt =====
-- The invariant of a timer queue, and the moves of an entry between the lists.
use libnetq.Prelude.{
  ℕ, ◌+◌, ◌%◌, ◌^◌, ◌≤◌, ◌<◌, ◌≡◌, refl, sym, ◌∙◌, List, [], ◌∷◌, true, false, ltb, ◌==◌,
  if◌then◌else◌, arith, Bool-cases, inl, inr, ==_iff,
}
use mathlib.Core.Path.{subst}
use libnetq.Prelude.Int.{pos, ◌<ℤ◌}
use libnetq.Prelude.Bits.{mod-mod-power}
use libnetq.Timer.{TimerEntry, TimerQueue, update, unlink, release, time_of, list_insert}
use libnetq.Timer.Lists.{
  count, erase, insert_by, IsSorted, count-append, count-erase, count-insert_by, IsSorted-erase,
  IsSorted-insert_by, IsSorted-congr,
}
use native.Mathlib.Nat.{add-mod_right}

-- Each entry of the block is in one of the lists, once; it is in the active list if its flag says so;
-- its id belongs to its place; the active list is ordered by time; an active timer has a period.
pub record IsValid (q : TimerQueue) : Type 0 where
  pub log_count : ℕ
  pub log_count_le : log_count ≤ 16
  pub power : q.alloc_count ≡ 2 ^ log_count
  pub once :
      (i : ℕ) → count i q.active_list + count i q.free_list ≡ (if ltb i q.alloc_count then 1 else 0)
  pub flags : (i : ℕ) → count i q.active_list ≡ (if (q.alloc_timer i).active then 1 else 0)
  pub ids : (i : ℕ) → (q.alloc_timer i).id % q.alloc_count ≡ (i + 1) % q.alloc_count
  pub words : (i : ℕ) → i < q.alloc_count → (q.alloc_timer i).id < 2 ^ 32
  pub sorted : IsSorted (time_of q) q.active_list
  pub periods : (i : ℕ) → (q.alloc_timer i).active ≡ true → pos 0 <ℤ (q.alloc_timer i).timeout

next_id : (n id : ℕ) → n ≤ 16 → (id + 2 ^ n) % 2 ^ 32 % 2 ^ n ≡ id % 2 ^ n
next_id n id h = mod-mod-power n 32 (id + 2 ^ n) (omega arith) ∙ add-mod_right id (2 ^ n)

-- What holds of the entries after one of them is written: it holds of the new one at its place, and
-- held of the others.
pub update_cases :
    (P : ℕ → TimerEntry → Type 0) (f : ℕ → TimerEntry) (i j : ℕ) (e : TimerEntry)
    → P i e
    → ((i == j) ≡ false → P j (f j))
    → P j (update f i e j)
update_cases P f i j e p r = elim (Bool-cases (i == j)) [
  | inl h ↦ rw h (subst (λ (k : ℕ). P k e) ((==_iff i j).0 h) p)
  | inr h ↦ rw h (r h)
]

-- The order of a list does not see a new value of an entry that is not in it.
IsSorted-update :
    (f : ℕ → TimerEntry) (i : ℕ) (e : TimerEntry) (xs : List ℕ)
    → count i xs ≡ 0
    → IsSorted (λ j. (f j).time_point) xs
    → IsSorted (λ j. (update f i e j).time_point) xs
IsSorted-update f i e xs h s =
    IsSorted-congr (λ j. (f j).time_point) (λ j. (update f i e j).time_point) xs
      (λ j.
        update_cases (λ k x. 0 < count k xs → (f k).time_point ≡ x.time_point) f i j e
          (λ g. absurd (omega arith)) (λ r g. refl))
      s

module _ (q : TimerQueue) (i : ℕ) (v : IsValid q) where
  -- How often the entry is in the lists, and that it is in the block.
  pub active_place :
      (q.alloc_timer i).active ≡ true
      → (count i q.active_list ≡ 1) × (count i q.free_list ≡ 0) × (i < q.alloc_count)
  active_place a = ground (arith, v.once i, v.flags i, a)

  pub free_place :
      0 < count i q.free_list
      → (count i q.active_list ≡ 0) × (count i q.free_list ≡ 1) × (i < q.alloc_count)
  free_place a = ground (arith, v.once i, v.flags i, a)

  released_id :
      ((q.alloc_timer i).id + q.alloc_count) % 2 ^ 32 % q.alloc_count ≡ (i + 1) % q.alloc_count
  released_id =
      subst (λ (n : ℕ). ((q.alloc_timer i).id + n) % 2 ^ 32 % n ≡ (q.alloc_timer i).id % n)
        (sym v.power) (next_id v.log_count (q.alloc_timer i).id v.log_count_le)
      ∙ v.ids i

  -- An active entry that is released.
  pub release-IsValid : (q.alloc_timer i).active ≡ true → IsValid (release i (unlink i q))
  release-IsValid a =
      let (in_active, in_free, inside) = active_place a in
      let entry = record (q.alloc_timer i) {
        id = ((q.alloc_timer i).id + q.alloc_count) % 2 ^ 32;
        active = false;
      } in
      record {
        log_count = v.log_count;
        log_count_le = v.log_count_le;
        power = v.power;
        once = λ j. ground (
          arith,
          v.once j,
          v.once i,
          count-erase i j q.active_list,
          count-append j (erase i q.free_list) (i ∷ []),
          count-erase i j q.free_list,
          in_active,
          in_free,
        );
        flags = λ j.
            update_cases (λ k x. count k (erase i q.active_list) ≡ (if x.active then 1 else 0))
              q.alloc_timer i j entry (ground (arith, count-erase i i q.active_list, in_active))
              (λ r. ground (arith, count-erase i j q.active_list, v.flags j, r));
        ids = λ j.
            update_cases (λ k x. x.id % q.alloc_count ≡ (k + 1) % q.alloc_count) q.alloc_timer i j
              entry released_id (λ r. v.ids j);
        words = λ j h.
            update_cases (λ k x. k < q.alloc_count → x.id < 2 ^ 32) q.alloc_timer i j entry
              (λ g. omega arith) (λ r. v.words j) h;
        sorted =
            IsSorted-update q.alloc_timer i entry (erase i q.active_list)
              (ground (arith, count-erase i i q.active_list, in_active))
              (IsSorted-erase (time_of q) i q.active_list v.sorted);
        periods = λ j.
            update_cases (λ k x. x.active ≡ true → pos 0 <ℤ x.timeout) q.alloc_timer i j entry
              (λ g. cc) (λ r. v.periods j);
      }

  -- An entry of the free list that becomes active, or an active one that is due again.
  pub insert-IsValid :
      (e : TimerEntry)
      → i < q.alloc_count
      → e.active ≡ true
      → e.id ≡ (q.alloc_timer i).id
      → pos 0 <ℤ e.timeout
      → IsValid (list_insert i (record (unlink i q) { alloc_timer = update q.alloc_timer i e }))
  insert-IsValid e inside a d t =
      let time = λ (j : ℕ). (update q.alloc_timer i e j).time_point in
      let rest = erase i q.active_list in
      let gone : count i rest ≡ 0 = ground (arith, count-erase i i q.active_list, v.flags i) in
      record {
        log_count = v.log_count;
        log_count_le = v.log_count_le;
        power = v.power;
        once = λ j. ground (
          arith,
          v.once j,
          v.once i,
          count-insert_by time i j rest,
          count-erase i j q.active_list,
          count-erase i j q.free_list,
          inside,
        );
        flags = λ j.
            update_cases (λ k x. count k (insert_by time i rest) ≡ (if x.active then 1 else 0))
              q.alloc_timer i j e (ground (arith, count-insert_by time i i rest, gone, a))
              (λ r. ground (
                arith,
                count-insert_by time i j rest,
                count-erase i j q.active_list,
                v.flags j,
                r,
              ));
        ids = λ j.
            update_cases (λ k x. x.id % q.alloc_count ≡ (k + 1) % q.alloc_count) q.alloc_timer i j e
              (rw d (v.ids i)) (λ r. v.ids j);
        words = λ j h.
            update_cases (λ k x. k < q.alloc_count → x.id < 2 ^ 32) q.alloc_timer i j e
              (λ g. rw d (v.words i g)) (λ r. v.words j) h;
        sorted = IsSorted-insert_by time i rest (
            IsSorted-update q.alloc_timer i e rest gone
              (IsSorted-erase (time_of q) i q.active_list v.sorted));
        periods = λ j.
            update_cases (λ k x. x.active ≡ true → pos 0 <ℤ x.timeout) q.alloc_timer i j e (λ g. t)
              (λ r. v.periods j);
      }
