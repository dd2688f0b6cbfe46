-- ===== src/Dispatch/Work.antt =====
-- The loops that perform or clean what is waiting.
use libnetq.Prelude.{
  ℕ, zero, suc, ◌<◌, ◌≡◌, refl, sym, ap, ◌∙◌, List, [], ◌∷◌, ◌++◌, append-nil, append_assoc, map,
  some, ◌==◌, arith, length, inl, inr, if_cases,
}
use mathlib.Core.Path.{subst}
use libnetq.Dispatch.{
  DispatchData, DispatchQueue, Event, perform, clean, map_events, perform_all, clean_all, work_loop,
  perform_work, finalize, finalize_list,
}
use libnetq.Dispatch.Fifo.{IsValid, shift_cases}

-- What the callbacks of the listed data add, one after another.
abbrev pub added : (DispatchData → List DispatchData) → List DispatchData → List DispatchData
added extra [] = []
added extra (d ∷ rest) = extra d ++ added extra rest

cons-injective :
    {d d' : DispatchData} {xs ys : List DispatchData} → d ∷ xs ≡ d' ∷ ys → (d ≡ d') × (xs ≡ ys)
cons-injective e = (cc, cc)

no_data : (xs : List DispatchData) → length xs ≡ 0 → xs ≡ []
no_data [] h = refl
no_data (x ∷ xs) h = absurd (omega arith)

module _ (between : DispatchData → DispatchQueue → DispatchQueue)
    (extra : DispatchData → List DispatchData)
    (keep : (d : DispatchData) (q : DispatchQueue)
      → IsValid q
      → IsValid (between d q) × ((between d q).work_list ≡ q.work_list ++ extra d)) where
  work_loop_lem :
      (xs ys : List DispatchData) (q : DispatchQueue)
      → IsValid q
      → q.work_list ≡ xs ++ ys
      → ((work_loop between (length xs) q).0 ≡ map perform xs)
        × ((work_loop between (length xs) q).1.work_list ≡ ys ++ added extra xs)
        × IsValid (work_loop between (length xs) q).1
  unfolding work_loop
  work_loop_lem [] ys q v e = (refl, e ∙ sym (append-nil ys), v)
  work_loop_lem (x ∷ xs) ys q v e = elim (shift_cases q v) [
    | inl (f, g) ↦ absurd (cc)
    | inr (d, q', f, g, v') ↦
        let (same, tail) = cons-injective (sym g ∙ e) in
        let (w, more) = keep d q' v' in
        let (es, left, u) =
          work_loop_lem xs (ys ++ extra d) (between d q') w
            (more ∙ ap (λ l. l ++ extra d) tail ∙ append_assoc xs ys (extra d)) in
        rw (work_loop, f)
          (
            ap (λ l. perform d ∷ l) es ∙ ap (λ c. perform c ∷ map perform xs) same,
            left
                ∙ append_assoc ys (extra d) (added extra xs)
                ∙ ap (λ c. ys ++ (extra c ++ added extra xs)) same,
            u,
          )
  ]

  -- A round of work on a well formed queue performs exactly what was waiting at its start, in order,
  -- also if the callbacks add more, which is then what is waiting, in the order in which it was added.
  perform_work_lem :
      (q : DispatchQueue)
      → IsValid q
      → ((perform_work between q).0 ≡ map perform q.work_list)
        × ((perform_work between q).1.work_list ≡ added extra q.work_list)
        × IsValid (perform_work between q).1
  unfolding perform_work
  perform_work_lem q v =
      if_cases
        (λ (r : List Event × DispatchQueue).
          (r.0 ≡ map perform q.work_list) × (r.1.work_list ≡ added extra q.work_list) × IsValid r.1)
        (q.size == 0) ([], q) (work_loop between q.size q)
        (λ e.
          let none_left = no_data q.work_list (ground (arith, e, v.size_lem)) in
          (sym (ap (map perform) none_left), none_left ∙ sym (ap (added extra) none_left), v))
        (λ _.
          subst
            (λ (n : ℕ).
              ((work_loop between n q).0 ≡ map perform q.work_list)
              × ((work_loop between n q).1.work_list ≡ added extra q.work_list)
              × IsValid (work_loop between n q).1)
            (sym v.size_lem) (work_loop_lem q.work_list [] q v (sym (append-nil q.work_list))))

-- With nothing added in between, the loops that perform and clean all go through what is waiting, in
-- order, and leave nothing.
perform_all_list :
    (fuel : ℕ) (xs : List DispatchData) (q : DispatchQueue)
    → IsValid q
    → q.work_list ≡ xs
    → length xs < fuel
    → (q' : DispatchQueue) × (perform_all (λ d q. q) fuel q ≡ some (map perform xs, q'))
      × (clean_all (λ d q. q) fuel q ≡ some (map clean xs, q'))
      × (q'.work_list ≡ [])
unfolding perform_all clean_all
perform_all_list zero xs q v e h = absurd (omega arith)
perform_all_list (suc fuel) [] q v e h = elim (shift_cases q v) [
  | inl (f, g) ↦ (q, rw (perform_all, f) refl, rw (clean_all, f) refl, e)
  | inr (d, q', f, g, v') ↦ absurd (cc)
]
perform_all_list (suc fuel) (x ∷ xs) q v e h = elim (shift_cases q v) [
  | inl (f, g) ↦ absurd (cc)
  | inr (d, q', f, g, v') ↦
      let (same, tail) = cons-injective (sym g ∙ e) in
      let (left, p, c, w) = perform_all_list fuel xs q' v' tail (omega (arith, h)) in
      (
        left,
        rw (perform_all, f)
            (ap (map_events (perform d)) p
              ∙ ap (λ c. some (perform c ∷ map perform xs, left)) same),
        rw (clean_all, f)
            (ap (map_events (clean d)) c ∙ ap (λ c. some (clean c ∷ map clean xs, left)) same),
        w,
      )
]

finalize_list_lem : (xs : List DispatchData) → finalize_list xs ≡ map clean xs
unfolding finalize_list
finalize_list_lem [] = refl
finalize_list_lem (d ∷ rest) = ap (λ l. clean d ∷ l) (finalize_list_lem rest)

-- On a well formed queue to which nothing is added in between, the loop that performs all and the loop
-- that cleans all end after one round more than there are data waiting. They go through the data in
-- order, leave the same queue, with nothing waiting, and the second makes the calls that the
-- finalisation of the queue makes.
perform_all_lem :
    (fuel : ℕ) (q : DispatchQueue)
    → IsValid q
    → length q.work_list < fuel
    → (q' : DispatchQueue) × (perform_all (λ d q. q) fuel q ≡ some (map perform q.work_list, q'))
      × (clean_all (λ d q. q) fuel q ≡ some (finalize q, q'))
      × (q'.work_list ≡ [])
unfolding finalize
perform_all_lem fuel q v h =
    let (q', p, c, w) = perform_all_list fuel q.work_list q v refl h in
    (q', p, c ∙ ap (λ (l : List Event). some (l, q')) (sym (finalize_list_lem q.work_list)), w)
