-- ===== src/Dispatch/Tests.antt =====
-- Concrete queues.
use libnetq.Prelude.{◌+◌, length, ◌≡◌, refl, List, [], ◌∷◌, ◌++◌, true, false, arith}
use libnetq.Dispatch.{DispatchData, DispatchQueue}
use libnetq.Dispatch.Fifo.{IsValid, Op, push_op, shift_op, run, run_fifo}
use libnetq.Dispatch.Leak.{lost, lost-run}

abbrev first : DispatchData
first = record { userdata = 1; handle = 2; destroy = 3 }

abbrev second : DispatchData
second = record { userdata = 4; handle = 5; destroy = 6 }

abbrev waiting : DispatchQueue
waiting = record { work_list = first ∷ second ∷ []; free_list = 1; size = 2; total = 3 }

waiting-IsValid : IsValid waiting
waiting-IsValid = record { size_lem = refl; counted = omega arith; bounded = omega arith }

abbrev some_ops : List Op
some_ops = push_op true first ∷ shift_op ∷ push_op false second ∷ shift_op ∷ []

run_fifo_example :
    (waiting.work_list ++ (run some_ops waiting).0
      ≡ (run some_ops waiting).1 ++ (run some_ops waiting).2.work_list)
    × IsValid (run some_ops waiting).2
run_fifo_example = run_fifo some_ops waiting waiting-IsValid

lost-run_example : lost (run some_ops waiting).2 ≡ lost waiting + length (run some_ops waiting).1
lost-run_example = lost-run some_ops waiting waiting-IsValid
