-- ===== src/DescSet/Valid.antt =====
-- The entries that are free, in every set that a program can come to.
use libnetq.Prelude.{
  ℕ, ◌+◌, ◌-◌, ◌*◌, ◌/◌, ◌%◌, ◌^◌, ◌≤◌, ◌<◌, ◌≡◌, ◌≢◌, refl, sym, ap, ◌∙◌, List, [], ◌∷◌, Option,
  some, Bool, true, false, ltb, if◌then◌else◌, arith, inl, inr, All, All-append,
}
use mathlib.Core.Path.{subst}
use libnetq.DescSet.{
  DescSet, to_index, num_max, places, create, set_max_id, alloc_entry, release_found, release_entry,
}
use libnetq.DescSet.Ids.{to_index_lem}
use libnetq.DescSet.Lists.{
  Distinct, All-both, All-places, Distinct-places, Distinct-append, put_at_self, put_at_other,
}
use libnetq.DescSet.Cases.{Taken, Released, alloc_entry-cases, release_entry-cases}

-- A free entry is marked, and its identifier leads to its own place.
abbrev pub IsFree : DescSet → ℕ → Type 0
IsFree s i = (i < s.max_count) × (to_index (s.ids i) ≡ i) × (s.is_free i ≡ true)

pub record IsValid (s : DescSet) : Type 0 where
  pub few : s.max_count ≤ 4096
  pub free : All (IsFree s) s.free_list
  pub distinct : Distinct s.free_list

Taken-IsValid : {s s' : DescSet} {id : ℕ} {p : Option ℕ} → IsValid s → Taken s s' id p → IsValid s'
Taken-IsValid {s} {s'} {id} v t =
    let i = t.place in
    let free : All (IsFree s) (i ∷ t.others) = subst (All (IsFree s)) t.front v.free in
    let distinct : Distinct (i ∷ t.others) = subst Distinct t.front v.distinct in
    subst IsValid (sym t.after) (record {
      few = v.few;
      free =
          All-both t.others
            (λ j h f. (
              f.0,
              ap to_index (put_at_other i j id s.ids h) ∙ f.1,
              put_at_other i j false s.is_free h ∙ f.2,
            ))
            distinct.0 free.1;
      distinct = distinct.1;
    })

Released-IsValid : {s s' : DescSet} {id : ℕ} → IsValid s → Released s s' id → IsValid s'
Released-IsValid {s} {s'} {id} v r =
    let i = to_index id in
    let ne : (j : ℕ) → IsFree s j → j ≢ i =
      λ j f h. absurd (cc (f.2, ap s.is_free h, r.taken_before)) in
    subst IsValid (sym r.after) (record {
      few = v.few;
      free =
          All-append (IsFree (release_found s (some i))) s.free_list (i ∷ [])
            (All-both s.free_list
              (λ j f g. (f.0, f.1, put_at_other i j true s.is_free (ne j f) ∙ f.2)) v.free v.free)
            ((r.inside, ap to_index r.own, put_at_self i true s.is_free), tt);
      distinct =
          Distinct-append s.free_list i (All-both s.free_list (λ j f g. ne j f) v.free v.free)
            v.distinct;
    })

create-IsValid :
    (malloc : ℕ → Bool) (num size : ℕ) {s : DescSet} → create malloc num size ≡ some s → IsValid s
unfolding create
create-IsValid malloc num size {s} e =
    let entry_size = (32 + size + 7) / 8 * 8 % 2 ^ 64 in
    let new : DescSet = record {
      max_id = 2 ^ 64 - 1;
      max_count = num;
      entry_size = entry_size;
      ids = λ i. i;
      is_free = λ i. true;
      alloc_list = [];
      free_list = places 0 num;
    } in
    let few : num ≤ 4096 = ground (arith, e) in
    let same : s ≡ new = ground (arith, e) in
    subst IsValid (sym same) (record {
      few = few;
      free = All-places 0 num (λ j h k. (omega arith, to_index_lem j ∙ omega arith, refl));
      distinct = Distinct-places 0 num;
    })

-- The sets that a program can come to, whatever `malloc` and the random generator give.
pub data History : DescSet → Type 0 where
  made :
      {s : DescSet} (malloc : ℕ → Bool) (num size : ℕ) → create malloc num size ≡ some s → History s
  limited : {s : DescSet} (id : ℕ) → History s → History (set_max_id id s).1
  allocated :
      {s s' : DescSet} (randoms : List ℕ) (id : ℕ) (p : Option ℕ) (more : List ℕ)
      → History s
      → alloc_entry randoms s ≡ some (id, p, s', more)
      → History s'
  released : {s s' : DescSet} (id : ℕ) → History s → release_entry id s ≡ some s' → History s'

limited-IsValid :
    (b : Bool) {s : DescSet} (id : ℕ)
    → IsValid s
    → IsValid (if◌then◌else◌ {A = Bool × DescSet} b (false, s) (true, record s { max_id = id })).1
limited-IsValid true id v = v
limited-IsValid false id v = record { few = v.few; free = v.free; distinct = v.distinct }

-- However a set came to be, it has at most 4096 places; its free entries are distinct, marked as
-- free, inside the block, and each has an identifier that leads to its own place.
pub History-IsValid : (s : DescSet) → History s → IsValid s
unfolding set_max_id
History-IsValid s (made malloc num size e) = create-IsValid malloc num size e
History-IsValid _ (limited {s = s} id h) =
    limited-IsValid (ltb id num_max) {s = s} id (History-IsValid s h)
History-IsValid s' (allocated {s = s} randoms id p more h e) =
    let v = History-IsValid s h in
    elim (alloc_entry-cases randoms s e) [
      | inl (same, z) ↦ subst IsValid (sym same) v
      | inr t ↦ Taken-IsValid v t
    ]
History-IsValid s' (released {s = s} id h e) =
    let v = History-IsValid s h in
    elim (release_entry-cases id s e) [
      | inl same ↦ subst IsValid (sym same) v
      | inr r ↦ Released-IsValid v r
    ]
