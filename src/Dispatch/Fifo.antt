-- ===== src/Dispatch/Fifo.antt =====
-- The dispatch queue is a queue: the invariant, and what runs of pushes and shifts give.
use libnetq.Prelude.{
  ℕ, zero, suc, ◌+◌, ◌-◌, ◌≤◌, ◌≡◌, refl, sym, ap, ◌∙◌, List, [], ◌∷◌, ◌++◌, append-nil,
  append_assoc, Option, none, some, Bool, true, false, leb, ◌==◌, arith, length, length-append,
  Bool-cases, inl, inr, ◌⊎◌, min,
}
use mathlib.Core.Path.{subst}
use libnetq.Dispatch.{
  DispatchData, DispatchQueue, queue_max, queue_init, fill, create, enqueue, push, shift,
  shift_first,
}

-- The size is that of the work list, and the entries in the lists were all counted.
pub record IsValid (q : DispatchQueue) : Type 0 where
  pub size_lem : q.size ≡ length q.work_list
  pub counted : q.size + q.free_list ≤ q.total
  pub bounded : q.total ≤ queue_max

fill-IsValid :
    (malloc : ℕ → Bool) (rounds index : ℕ) (q : DispatchQueue)
    → IsValid q
    → q.total + rounds ≤ queue_max
    → IsValid (fill malloc rounds index q)
unfolding fill
fill-IsValid malloc zero index q v h = v
fill-IsValid malloc (suc rounds) index q v h = elim (Bool-cases (malloc index)) [
  | inl e ↦ rw e (
      fill-IsValid malloc rounds (index + 1)
        (record q { free_list = q.free_list + 1; total = q.total + 1 })
        (ground (arith, v.size_lem, v.counted, v.bounded)) (omega (arith, h)))
  | inr e ↦ rw e v
]

pub create-IsValid :
    (allocated : Bool) (malloc : ℕ → Bool) (capacity : ℕ) (q : DispatchQueue)
    → create allocated malloc capacity ≡ some q
    → IsValid q
unfolding create queue_init
create-IsValid true malloc capacity q e =
    let made : fill malloc (min capacity queue_max) 0 queue_init ≡ q = cc in
    subst IsValid made (fill-IsValid malloc (min capacity queue_max) 0 queue_init empty room)
  where
    empty : IsValid queue_init
    empty = record { size_lem = refl; counted = omega arith; bounded = omega arith }

    room : queue_init.total + min capacity queue_max ≤ queue_max
    room = omega arith
create-IsValid false malloc capacity q e = absurd (cc)

-- What a push and a shift do to the work list.
push_cases :
    (malloc : Bool) (d : DispatchData) (q : DispatchQueue)
    → IsValid q
    → (push malloc d q ≡ none)
      ⊎ ((q' : DispatchQueue) × (push malloc d q ≡ some q')
          × (q'.work_list ≡ q.work_list ++ (d ∷ []))
          × IsValid q')
unfolding push
push_cases malloc d q v =
    let grown = length-append q.work_list (d ∷ []) in
    elim (Bool-cases (q.free_list == 0)) [
      | inr e ↦ inr (
        enqueue d (record q { free_list = q.free_list - 1 }),
        rw e refl,
        refl,
        ground (arith, e, grown, v.size_lem, v.counted, v.bounded),
      )
      | inl e ↦ elim (Bool-cases (leb queue_max (q.total + 1))) [
        | inl f ↦ inl (rw (e, f) refl)
        | inr f ↦ elim (Bool-cases malloc) [
          | inr g ↦ inl (rw (e, f, g) refl)
          | inl g ↦ inr (
            enqueue d (record q { total = q.total + 1 }),
            rw (e, f, g) refl,
            refl,
            ground (arith, e, f, grown, v.size_lem, v.counted, v.bounded),
          )
        ]
      ]
    ]

pub shift_cases :
    (q : DispatchQueue)
    → IsValid q
    → ((shift q ≡ none) × (q.work_list ≡ []))
      ⊎ ((d : DispatchData) × (q' : DispatchQueue) × (shift q ≡ some (d, q'))
          × (q.work_list ≡ d ∷ q'.work_list)
          × IsValid q')
unfolding shift
shift_cases q v = by_list q.work_list refl
  where
    by_list :
        (xs : List DispatchData)
        → q.work_list ≡ xs
        → ((shift_first q q.work_list ≡ none) × (q.work_list ≡ []))
          ⊎ ((d : DispatchData) × (q' : DispatchQueue) × (shift_first q q.work_list ≡ some (d, q'))
              × (q.work_list ≡ d ∷ q'.work_list)
              × IsValid q')
    by_list [] e = inl (ap (shift_first q) e, e)
    by_list (d ∷ rest) e = inr (
      d,
      record q { work_list = rest; size = q.size - 1 },
      ap (shift_first q) e,
      e,
      ground (arith, ap length e, v.size_lem, v.counted, v.bounded),
    )

-- A push, with the answer of `malloc`, or a shift.
pub data Op : Type 0 where
  push_op : Bool → DispatchData → Op
  shift_op : Op

abbrev pub after_push :
    DispatchData → Option DispatchQueue → DispatchQueue → List DispatchData × DispatchQueue
after_push d none q = ([], q)
after_push d (some q') q = (d ∷ [], q')

abbrev pub after_shift :
    Option (DispatchData × DispatchQueue) → DispatchQueue → List DispatchData × DispatchQueue
after_shift none q = ([], q)
after_shift (some (d, q')) q = (d ∷ [], q')

-- The data that were accepted, the data that were handed out, and the queue.
unfoldable pub run : List Op → DispatchQueue → List DispatchData × List DispatchData × DispatchQueue
run [] q = ([], [], q)
run (push_op malloc d ∷ ops) q =
    let (new, q') = after_push d (push malloc d q) q in
    let (accepted, out, left) = run ops q' in (new ++ accepted, out, left)
run (shift_op ∷ ops) q =
    let (first, q') = after_shift (shift q) q in
    let (accepted, out, left) = run ops q' in (accepted, first ++ out, left)

-- Through every run of pushes and shifts, with every answer of `malloc`, a well formed queue loses
-- nothing, doubles nothing and keeps the order: what was waiting at the start and what was accepted
-- since is what was handed out and what is waiting at the end. The queue stays well formed.
pub run_fifo :
    (ops : List Op) (q : DispatchQueue)
    → IsValid q
    → (q.work_list ++ (run ops q).0 ≡ (run ops q).1 ++ (run ops q).2.work_list)
      × IsValid (run ops q).2
unfolding run
run_fifo [] q v = (append-nil q.work_list, v)
run_fifo (push_op malloc d ∷ ops) q v = elim (push_cases malloc d q v) [
  | inl e ↦ rw e (run_fifo ops q v)
  | inr (q', e, f, v') ↦
      let (same, w) = run_fifo ops q' v' in
      rw e (
        sym (append_assoc q.work_list (d ∷ []) (run ops q').0)
            ∙ ap (λ l. l ++ (run ops q').0) (sym f)
            ∙ same,
        w,
      )
]
run_fifo (shift_op ∷ ops) q v = elim (shift_cases q v) [
  | inl (e, f) ↦ rw e (run_fifo ops q v)
  | inr (d, q', e, f, v') ↦
      let (same, w) = run_fifo ops q' v' in
      rw e (ap (λ l. l ++ (run ops q').0) f ∙ ap (λ l. d ∷ l) same, w)
]
