-- ===== src/QueueT/Tests.antt =====
-- Runs of the queue on small states.
use pcaio.Prelude.{◌≡◌, refl, false, true, [], ◌∷◌, ◌++◌, arith, some, map}
use pcaio.QueueT.{push, pushall, pop, got, lock}
use pcaio.QueueT.Fifo.{IsQueue, push-outside}
use pcaio.QueueT.Pop.{popped, pop-cons, pop-wakes}
use pcaio.QueueT.Batch.{Lost, pushall_loses}
use pcaio.QueueT.Run.{put, get, run, run_list, run_refines}
use pcaio.Samples.{queue0, queue0-IsQueue, queue2, queue2-IsQueue}

run_refines_example :
    run (put 9 ∷ put 5 ∷ get ∷ get ∷ []) queue2
    ≡ run_list (put 9 ∷ put 5 ∷ get ∷ get ∷ []) (5 ∷ 7 ∷ [])
run_refines_example =
    run_refines (put 9 ∷ put 5 ∷ get ∷ get ∷ []) queue2-IsQueue (omega arith, (omega arith, tt))
      (omega arith)

pop-cons_example :
    (pop false [] queue2 ≡ got 5 (popped (lock queue2))) × IsQueue (popped (lock queue2)) (7 ∷ [])
pop-cons_example = pop-cons false [] queue2-IsQueue

pop-wakes_example :
    (pop true (map some (queue0 ∷ []) ++ (some queue2 ∷ [])) queue0 ≡ got 5 (popped (lock queue2)))
    × IsQueue (popped (lock queue2)) (7 ∷ [])
pop-wakes_example = pop-wakes (queue0 ∷ []) [] queue0-IsQueue (queue0-IsQueue, tt) queue2-IsQueue

pushall_loses_example : Lost 5 (9 ∷ 7 ∷ []) (pushall (5 ∷ 7 ∷ []) (push 9 queue0).1)
pushall_loses_example =
    pushall_loses 5 (7 ∷ []) nine-IsQueue (refl, (refl, tt)) (omega arith, (omega arith, tt))
      (refl, (refl, tt)) (omega arith)
  where
    nine-IsQueue : IsQueue (push 9 queue0).1 (9 ∷ [])
    nine-IsQueue = (push-outside 9 queue0-IsQueue (omega arith) refl (omega arith)).1
