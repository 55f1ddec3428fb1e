-- ===== src/Task/Tests.antt =====
-- Runs of the operations on tasks on small states.
use pcaio.Prelude.{ℕ, ◌≡◌, refl, List, [], ◌∷◌, arith, Ptr, null, length}
use pcaio.World.{World}
use pcaio.Task.{System, new, split_pointer, copy_args, taskmain}
use pcaio.Task.Life.{Fresh, new-Fresh}
use pcaio.Task.Main.{Ended, taskmain-runs, taskmain_skips}
use pcaio.Samples.{queue0, list2, list2-IsList, world_of}

abbrev two_tasks : World
two_tasks = world_of queue0 list2

abbrev grants : System
grants = record { task = 9; context = 0; stack = 41 }

abbrev no_stack : System
no_stack = record { task = 9; context = 0; stack = null }

new-Fresh_example :
    Fresh grants 90
      (11 ∷ 12 ∷ [])
      (5 ∷ 7 ∷ [])
      two_tasks
      (new grants 90 80 2 (11 ∷ 12 ∷ []) two_tasks)
new-Fresh_example =
    new-Fresh grants 90 80 (11 ∷ 12 ∷ []) two_tasks (omega arith, refl, omega arith) (omega arith)
      list2-IsList refl (omega arith)

-- The task 5 with the arguments 11 and 12.
abbrev two_args : World
two_args = record two_tasks { argc = λ t. 2; argv = λ t. copy_args 2 2 (11 ∷ 12 ∷ []) (λ i. null) }

-- A function that returns how many arguments it was called with.
abbrev counts : Ptr → List Ptr → World → ℕ × World
counts f args w = (length args, w)

taskmain-runs_example :
    Ended 5 2 two_args
      (taskmain counts (λ cb t w. w) 99 3 (split_pointer 5).0 (split_pointer 5).1 two_args).1
    × ((taskmain counts (λ cb t w. w) 99 3 (split_pointer 5).0 (split_pointer 5).1 two_args).0
        ≡ two_args.context_key.value 3)
taskmain-runs_example =
    taskmain-runs counts (λ cb t w. w) 99 3 5 (11 ∷ 12 ∷ []) (λ i. null) two_args two_args 2
      (omega arith) refl refl (omega arith) refl refl refl (omega arith)

abbrev seven_args : World
seven_args = record two_tasks { argc = λ t. 7 }

abbrev returns_one : Ptr → List Ptr → World → ℕ × World
returns_one f args w = (1, w)

taskmain_skips_example :
    (taskmain counts (λ cb t w. w) 99 3 (split_pointer 5).0 (split_pointer 5).1 seven_args
      ≡ taskmain returns_one (λ cb t w. w) 99 3 (split_pointer 5).0 (split_pointer 5).1 seven_args)
    × ((taskmain counts
            (λ cb t w. w)
            99
            3
            (split_pointer 5).0
            (split_pointer 5).1
            seven_args).1.status_at
          80
        ≡ 99)
taskmain_skips_example =
    taskmain_skips counts returns_one (λ cb t w. w) 99 3 5 seven_args (omega arith) (omega arith)
      (omega arith) refl refl
