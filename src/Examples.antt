-- ===== src/Examples.antt =====
-- examples/: the programs that show how the library is used. What they share is the loop that makes
-- their tasks.
pub mod Tasks
pub mod Modules
pub mod Await
pub mod Pipe
pub mod Asleep
pub mod Echo
mod Tests
use pcaio.Prelude.{ℕ, zero, suc, ◌+◌, List, [], ◌∷◌, Ptr, null, length}
use pcaio.World.{World}
use pcaio.Task
use pcaio.Task.{System}

-- `for (i = 0; i < n; i++) tasks[i] = pcaio_task_new(func, NULL, ...)`, with `left` rounds to go.
unfoldable pub make_tasks :
    (sys : ℕ → System)
    → (func : Ptr) → (args : ℕ → List Ptr) → (left i : ℕ) → World
    → List Ptr × World
make_tasks sys func args zero i w = ([], w)
make_tasks sys func args (suc left) i w =
    let (t, w1) = Task.new (sys i) func null (length (args i)) (args i) w in
    let (ts, w2) = make_tasks sys func args left (i + 1) w1 in (t ∷ ts, w2)
