-- ===== src/Examples/Asleep/Program.antt =====
-- `main` of examples/asleep.c.
use pcaio.Prelude.{ℕ, Option, none, some, List, [], ◌∷◌, Ptr, Tid}
use pcaio.World.{World}
use pcaio.Task.{System}
use pcaio.Master.{State, Callbacks}
use pcaio.Api.Run.{Answers, pcaio_run}
use pcaio.Examples.{make_tasks}
use pcaio.Examples.Modules.{Memory, Given, use_modules}

abbrev tasks_max : ℕ
tasks_max = 3

abbrev workers : ℕ
workers = 1

-- `pcaio(WORKERS, tasks, TASKS_MAX)` and the end of `main`, which returns EXIT_SUCCESS whatever
-- `pcaio` returned; none while the main loop runs.
unfoldable pub finish_main :
    Tid
    → Callbacks Memory
    → Answers
    → List (State Memory → State Memory)
    → State Memory
    → List Ptr × World
    → Option (ℕ × State Memory)
finish_main thread cb answers rounds s (tasks, w) =
    elim (pcaio_run thread cb answers rounds workers tasks (record s { world = w })) [
      | none ↦ none
      | some (ret, s1) ↦ some (0, s1)
    ]

-- `main`.
unfoldable pub main :
    (sys : ℕ → System)
    → (func : Ptr) → Tid
    → Callbacks Memory
    → Answers
    → List (State Memory → State Memory)
    → Given
    → State Memory
    → Option (ℕ × State Memory)
unfolding finish_main
main sys func thread cb answers rounds given s =
    let s1 = use_modules given 8 s in
    finish_main thread cb answers rounds s1 (make_tasks sys func (λ i. i ∷ []) tasks_max 0 s1.world)
