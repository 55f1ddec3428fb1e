-- ===== src/Worker/Tests.antt =====
-- Runs of the worker's loop on small states.
use pcaio.Prelude.{
  ◌≡◌, refl, true, List, Ptr, [], ◌∷◌, arith, ◌==◌, if◌then◌else◌, update, Bool-cases, inl, inr,
}
use pcaio.QueueT.Fifo.{IsQueue}
use pcaio.QueueT.Pop.{pop-cons}
use pcaio.World.{World}
use pcaio.ListT.Refine.{IsList}
use pcaio.Worker.{Round, running, turn, worker, set_task, set_context}
use pcaio.Worker.Turn.{Settled, turn-Settled, first_back}
use pcaio.Worker.Fair.{GivesWay, worker_round_robin, entered}
use pcaio.Samples.{queue2, queue2-IsQueue, list2, list2-IsList, world_of}
use pcaio.QueueT
use pcaio.QueueT.Pop.{popped}
use pcaio.Worker.Crew.{Crew, idle, runs, Step, takes, Steps, go, stay}
use pcaio.Worker.Moves.{Exclusive}
use pcaio.Worker.Exclusive.{Steps-Exclusive, woken_early}
use pcaio.Samples.{queue0, queue0-IsQueue}

-- The tasks 5 and 7 are alive and wait.
abbrev two_tasks : World
two_tasks = world_of queue2 list2

-- A round in which the task gives way at once.
abbrev yields : Round
yields = record { others = λ w. w; waits = []; store = 0; run = λ t w. (0, w); clear = 0 }

yields-GivesWay : GivesWay yields
yields-GivesWay = record { alone = λ w. refl; returns = λ t w. refl }

-- A round in which the task ends.
abbrev ends : Round
ends = record {
  others = λ w. w;
  waits = [];
  store = 0;
  run = λ t w. (0, record w { flags = λ a. 1 });
  clear = 0;
}

left-IsQueue : IsQueue (first_back 3 ends 5 two_tasks).taskq (7 ∷ [])
unfolding set_task
left-IsQueue = (pop-cons true [] queue2-IsQueue).1

left-IsList : IsList (first_back 3 ends 5 two_tasks).tasks (5 ∷ 7 ∷ [])
unfolding set_task
left-IsList = list2-IsList

turn-Settled_example :
    (v : World) × (turn 3 ends two_tasks ≡ running v)
    × Settled 5 (first_back 3 ends 5 two_tasks) v (7 ∷ []) (5 ∷ 7 ∷ [])
turn-Settled_example =
    turn-Settled 3 ends two_tasks queue2-IsQueue refl left-IsQueue left-IsList (omega arith) refl
      (omega arith)

worker_round_robin_example :
    (v : World) × (worker 3 70 0 (yields ∷ yields ∷ []) two_tasks ≡ running v)
    × IsQueue v.taskq (5 ∷ 7 ∷ [])
    × (entered 3 (yields ∷ yields ∷ []) (set_context 0 3 70 two_tasks) ≡ 5 ∷ 7 ∷ [])
worker_round_robin_example =
    worker_round_robin 3 70 0 (yields ∷ yields ∷ []) two_tasks (5 ∷ 7 ∷ [])
      (yields-GivesWay, (yields-GivesWay, tt)) (λ t. (refl, refl)) queue2-IsQueue refl

-- Two workers that wait, before a queue of two tasks.
abbrev both_wait : Crew
both_wait = record { world = two_tasks; phase = λ i. idle }

both_wait-Exclusive : Exclusive both_wait (5 ∷ 7 ∷ [])
both_wait-Exclusive = record {
  queue = queue2-IsQueue;
  live = λ i t e. absurd (let wrong : idle ≡ runs t = e in cc);
  outside = λ i t e. absurd (let wrong : idle ≡ runs t = e in cc);
  alone = λ i j t e e'. absurd (let wrong : idle ≡ runs t = e in cc);
}

-- The first worker has taken the task 5.
abbrev one_runs : Crew
one_runs = record both_wait {
  world = record two_tasks { taskq = popped (QueueT.lock queue2) };
  phase = update both_wait.phase 1 (runs 5);
}

one_takes : Steps 1 both_wait one_runs
one_takes =
    go (takes 1 5 (popped (QueueT.lock queue2)) refl (pop-cons true [] queue2-IsQueue).0) tt stay

Steps-Exclusive_example : (ys : List Ptr) × Exclusive one_runs ys
Steps-Exclusive_example = Steps-Exclusive one_takes both_wait-Exclusive (omega arith)

-- The queue is empty, and the first worker has the task 5.
abbrev none_waits : Crew
none_waits = record { world = world_of queue0 list2; phase = λ i. if i == 1 then runs 5 else idle }

none_waits-Exclusive : Exclusive none_waits []
none_waits-Exclusive = record {
  queue = queue0-IsQueue;
  live = λ i t e. elim (Bool-cases (i == 1)) [
    | inl one ↦ ground arith
    | inr other ↦ absurd (let wrong : idle ≡ runs t = ground arith in cc)
  ];
  outside = λ i t e. refl;
  alone = λ i j t e e'. elim (Bool-cases (i == 1)) [
    | inl one ↦ elim (Bool-cases (j == 1)) [
      | inl one' ↦ ground arith
      | inr other ↦ absurd (let wrong : idle ≡ runs t = ground arith in cc)
    ]
    | inr other ↦ absurd (let wrong : idle ≡ runs t = ground arith in cc)
  ];
}

woken_early_example :
    (c1 : Crew) × (c2 : Crew) × Step none_waits c1
    × Step c1 c2
    × (c2.phase 1 ≡ runs 5)
    × (c2.phase 2 ≡ runs 5)
woken_early_example = woken_early 1 2 5 none_waits-Exclusive refl refl
