-- ===== src/Examples/Pipe/Program.antt =====
-- `main` of examples/epoll_pipe.c.
use pcaio.Prelude.{ℕ, Option, none, some, List, [], ◌∷◌, Ptr, null, Tid, Status, failed}
use pcaio.World.{World}
use pcaio.Task
use pcaio.Task.{System}
use pcaio.Master.{State, Callbacks}
use pcaio.Api.Run.{Answers, pcaio_run}
use pcaio.Examples.Modules.{Memory, Given, use_modules}

abbrev workers : ℕ
workers = 2

-- The two tasks, with the two ends of the pipe.
abbrev make_two :
    (sys sys' : System) (consumer producer : Ptr) (reads writes : ℕ) → World → List Ptr × World
make_two sys sys' consumer producer reads writes w =
    let (t, w1) = Task.new sys consumer null 1 (reads ∷ []) w in
    let (t', w2) = Task.new sys' producer null 1 (writes ∷ []) w1 in (t ∷ t' ∷ [], w2)

-- `main`: `pipe` is what `pipe2` comes to, none for an error; the result is none while the main loop
-- runs.
unfoldable pub main :
    (sys sys' : System) (consumer producer : Ptr)
    → (pipe : Option (ℕ × ℕ)) → Tid
    → Callbacks Memory
    → Answers
    → List (State Memory → State Memory)
    → Given
    → State Memory
    → Option (Status × State Memory)
main sys sys' consumer producer none thread cb answers rounds given s = some (failed, s)
main sys sys' consumer producer (some (reads, writes)) thread cb answers rounds given s =
    let (tasks, w) = make_two sys sys' consumer producer reads writes s.world in
    pcaio_run thread cb answers rounds workers tasks (use_modules given 4 (record s { world = w }))
