-- ===== src/Dispatch/Leak.antt =====
-- What a shift does with its entry.
use libnetq.Prelude.{
  ℕ, ◌+◌, ◌-◌, ◌≡◌, refl, ap, ◌∙◌, List, [], ◌∷◌, Bool, arith, length, length-append,
}
use libnetq.Dispatch.{DispatchData, DispatchQueue, push, shift, shift_first}
use libnetq.Dispatch.Fifo.{IsValid, Op, push_op, shift_op, run, run_fifo, after_push, after_shift}

-- The entries that were allocated and are in neither list.
abbrev pub lost : DispatchQueue → ℕ
lost q = q.total - (q.size + q.free_list)

lost-push :
    (malloc : Bool) (d : DispatchData) (q : DispatchQueue)
    → IsValid q
    → lost (after_push d (push malloc d q) q).1 ≡ lost q
unfolding push
lost-push malloc d q v = ground (arith, v.counted)

lost-shift_first :
    (q : DispatchQueue) (xs : List DispatchData)
    → IsValid q
    → q.work_list ≡ xs
    → lost (after_shift (shift_first q xs) q).1
      ≡ lost q + length (after_shift (shift_first q xs) q).0
lost-shift_first q [] v e = omega arith
lost-shift_first q (d ∷ rest) v e = omega (arith, ap length e, v.size_lem, v.counted)

lost-shift :
    (q : DispatchQueue)
    → IsValid q
    → lost (after_shift (shift q) q).1 ≡ lost q + length (after_shift (shift q) q).0
unfolding shift
lost-shift q v = lost-shift_first q q.work_list v refl

-- Every shift that hands out data loses an entry: over every run of pushes and shifts on a well formed
-- queue, with every answer of `malloc`, the entries that were allocated and are in neither list of the
-- queue, so that they are neither used again nor freed with it, grow by the number of data that are
-- handed out.
pub lost-run :
    (ops : List Op) (q : DispatchQueue)
    → IsValid q
    → lost (run ops q).2 ≡ lost q + length (run ops q).1
unfolding run
lost-run [] q v = omega arith
lost-run (push_op malloc d ∷ ops) q v =
    lost-run ops (after_push d (push malloc d q) q).1 (run_fifo (push_op malloc d ∷ []) q v).1
    ∙ ap (λ n. n + length (run ops (after_push d (push malloc d q) q).1).1) (lost-push malloc d q v)
lost-run (shift_op ∷ ops) q v =
    let (first, q') = after_shift (shift q) q in
    let step : lost q' ≡ lost q + length first = lost-shift q v in
    let more : lost (run ops q').2 ≡ lost q' + length (run ops q').1 =
      lost-run ops q' (run_fifo (shift_op ∷ []) q v).1 in
    omega (arith, step, more, length-append first (run ops q').1)
