-- ===== src/DescSet/Handles.antt =====
-- What an identifier is good for.
use libnetq.Prelude.{
  ℕ, ◌<◌, ◌≡◌, ◌≢◌, ◌⊎◌, refl, sym, ap, ◌∙◌, List, [], ◌∷◌, ◌++◌, Option, some, true, false, ◌==◌,
  if◌then◌else◌, arith, Bool-cases, inl, inr, All,
}
use mathlib.Core.Path.{subst}
use libnetq.DescSet.{
  DescSet, to_index, taken, alloc_entry, find_entry, release_found, release_entry, has_entry,
  find_data,
}
use libnetq.DescSet.Valid.{IsFree, History, History-IsValid}
use libnetq.DescSet.Lists.{put_at_self, put_at_other}
use libnetq.DescSet.Cases.{alloc_entry-cases}

-- The look-up of an identifier, put in one test after another.
has_entry_lem :
    (id : ℕ) (s : DescSet)
    → to_index id < s.max_count
    → has_entry id s
      ≡ some (
          if s.ids (to_index id) == id
          then (if s.is_free (to_index id) then false else true)
          else false)
unfolding has_entry find_entry
has_entry_lem id s h = ground arith

-- Two sets that agree on the place of an identifier.
has_entry-agree :
    (id : ℕ) (s s' : DescSet)
    → s'.max_count ≡ s.max_count
    → s'.ids (to_index id) ≡ s.ids (to_index id)
    → s'.is_free (to_index id) ≡ s.is_free (to_index id)
    → has_entry id s' ≡ has_entry id s
unfolding has_entry find_entry
has_entry-agree id s s' c e f = ground (arith, c, e, f)

unless_same : {P : Type 0} (i j : ℕ) → (i ≢ j → P) → (i ≡ j) ⊎ P
unless_same i j f = elim (Bool-cases (i == j)) [
  | inl e ↦ inl (ground arith)
  | inr e ↦ inr (f (ground arith))
]

-- In any set that a program can come to: an entry that is handed out under an identifier other than
-- 0 stands at the place that the identifier leads to and is found there; the identifier that the
-- entry had before is not found any more; and every identifier that leads to another place is found
-- or not as before.
pub has_entry-alloc_entry :
    (other : ℕ) (s s' : DescSet) (randoms : List ℕ) (id : ℕ) (p : Option ℕ) (more : List ℕ)
    → History s
    → alloc_entry randoms s ≡ some (id, p, s', more)
    → id ≢ 0
    → (p ≡ some (to_index id))
      × (has_entry id s' ≡ some true)
      × (find_data id s' ≡ some p)
      × (has_entry (s.ids (to_index id)) s' ≡ some false)
      × ((to_index other ≡ to_index id) ⊎ (has_entry other s' ≡ has_entry other s))
unfolding has_entry find_data find_entry
has_entry-alloc_entry other s s' randoms id p more h e positive =
    elim (alloc_entry-cases randoms s e) [
      | inl (same, z) ↦ absurd (positive z)
      | inr t ↦
          let i = t.place in
          let v = History-IsValid s h in
          let free : All (IsFree s) (i ∷ t.others) = subst (All (IsFree s)) t.front v.free in
          let (inside, own, marked) = free.0 in
          let new = taken i t.others id s in
          let at : to_index id ≡ i = t.index positive ∙ own in
          let ids_new : new.ids (to_index id) ≡ id = ap new.ids at ∙ put_at_self i id s.ids in
          let free_new : new.is_free (to_index id) ≡ false =
            ap new.is_free at ∙ put_at_self i false s.is_free in
          let within : to_index id < s.max_count = omega (arith, at, inside) in
          let old : to_index (s.ids (to_index id)) ≡ to_index id =
            ap (λ j. to_index (s.ids j)) at ∙ own ∙ sym at in
          let stale : new.ids (to_index id) ≢ s.ids (to_index id) =
            λ q. t.fresh (sym ids_new ∙ q ∙ ap s.ids at) in
          let old_id = s.ids (to_index id) in
          let differs : new.ids (to_index old_id) ≢ old_id =
            λ q. stale (ap new.ids (sym old) ∙ q) in
          let unequal : (new.ids (to_index old_id) == old_id) ≡ false = ground (arith, differs) in
          (
            t.found ∙ ap some (sym at),
            ap (has_entry id) t.after ∙ ground (arith, ids_new, free_new, within),
            ap (find_data id) t.after
                ∙ ground (arith, ids_new, free_new, within)
                ∙ ap some (sym (t.found ∙ ap some (sym at))),
            ap (has_entry (s.ids (to_index id))) t.after
                ∙ has_entry_lem (s.ids (to_index id)) new (omega (arith, old, within))
                ∙ ap
                    (λ b. some (
                      if b then (if new.is_free (to_index old_id) then false else true) else false))
                    unequal,
            unless_same (to_index other) (to_index id) (λ ne.
                ap (has_entry other) t.after
                ∙ has_entry-agree other s new refl
                    (put_at_other i (to_index other) id s.ids (λ q. ne (q ∙ sym at)))
                    (put_at_other i (to_index other) false s.is_free (λ q. ne (q ∙ sym at)))),
          )
    ]

-- In any set: an identifier that is found is released; it is not found any more, its entry is the
-- last of the free ones, and every identifier that leads to another place is found or not as before.
pub has_entry-release_entry :
    (other : ℕ) (s : DescSet) (id : ℕ)
    → has_entry id s ≡ some true
    → (s' : DescSet) × (release_entry id s ≡ some s')
      × (has_entry id s' ≡ some false)
      × (s'.free_list ≡ s.free_list ++ to_index id ∷ [])
      × ((to_index other ≡ to_index id) ⊎ (has_entry other s' ≡ has_entry other s))
unfolding has_entry find_entry release_entry
has_entry-release_entry other s id h =
    let i = to_index id in
    let new = release_found s (some i) in
    let inside : i < s.max_count = ground (arith, h) in
    let own : s.ids i ≡ id = ground (arith, h) in
    let busy : s.is_free i ≡ false = ground (arith, h) in
    let free_new : new.is_free i ≡ true = put_at_self i true s.is_free in
    (
      new,
      ground (arith, inside, own, busy),
      ground (arith, inside, own, free_new),
      refl,
      unless_same (to_index other) i (λ ne.
          has_entry-agree other s new refl refl
            (put_at_other i (to_index other) true s.is_free ne)),
    )
