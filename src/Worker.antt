-- ===== src/Worker.antt =====
-- pcaio/worker.c: the loop of a worker thread.
pub mod Turn
pub mod Fair
pub mod Plan
pub mod Needs
pub mod Finish
pub mod Team
pub mod Crew
pub mod Moves
pub mod Exclusive
mod Tests
use Prim.Native.Nat.{bit_and}
use pcaio.Prelude.{
  ℕ, ◌-◌, ◌^◌, Bool, true, false, not, Option, List, [], ◌∷◌, ◌==◌, if◌then◌else◌, Ptr, null,
  update, Tid, Status, done, failed,
}
use pcaio.QueueT
use pcaio.QueueT.{Queue, got, empty, waiting}
use pcaio.World.{World, enqueue}
use pcaio.Task
use pcaio.Threadlocal
use pcaio.World.{task_terminated, task_noschedule}

abbrev pub einval : ℕ
einval = 22

abbrev pub enomem : ℕ
enomem = 12

-- What happens around one turn of the loop: what other threads do before this one has the queue,
-- how its waits on the condition end, what `pthread_setspecific` returns where the worker stores
-- its task, what `swapcontext` into a task comes to (what it returns, and the world in which the
-- worker goes on), and what `pthread_setspecific` returns where the worker forgets the task.
pub record Round : Type 0 where
  pub others : World → World
  pub waits : List (Option Queue)
  pub store : ℕ
  pub run : Ptr → World → ℕ × World
  pub clear : ℕ

-- A worker between two turns, in its wait for a task, or back from its function.
pub data Outcome : Type 0 where
  running : World → Outcome
  asleep : World → Outcome
  exited : ℕ → World → Outcome

-- `_cleanup`, which runs on every way out of the loop.
unfoldable pub cleanup : World → World
cleanup w = record w {
  taskq = QueueT.unlock w.taskq;
  task_key = Threadlocal.delete w.task_key;
  context_key = Threadlocal.delete w.context_key;
}

-- `threadlocaltask_set` and `threadlocalucontext_set`, whose result the worker ignores.
unfoldable pub set_task : (err : ℕ) → Tid → Ptr → World → World
unfolding Threadlocal.set
set_task err thread t w = record w { task_key = (Threadlocal.set err thread t w.task_key).1 }

unfoldable pub set_context : (err : ℕ) → Tid → Ptr → World → World
unfolding Threadlocal.set
set_context err thread ctx w = record w {
  context_key = (Threadlocal.set err thread ctx w.context_key).1;
}

-- `t->flags &= ~TASK_NOSCHEDULE`.
abbrev pub without_noschedule : ℕ → ℕ
without_noschedule f = bit_and f (2 ^ 32 - 1 - task_noschedule)

-- What the worker does with the task that came back.
unfoldable pub settle : Ptr → World → Outcome
settle t w =
    if not (bit_and (w.flags t) task_terminated == 0)
    then running (Task.free t w)
    else (if not (bit_and (w.flags t) task_noschedule == 0)
        then running (record w { flags = update w.flags t (without_noschedule (w.flags t)) })
        else (let (s, w1) = enqueue t w in
            elim s [ done ↦ running w1 | failed ↦ exited einval (cleanup w1) ]))

-- What the worker in the thread `thread` does with what `taskqueue_pop` gives it.
unfoldable pub dispatch : Tid → Round → World → QueueT.Popped → Outcome
unfolding set_task
dispatch thread r w (got t q) =
    let (ret, w1) = r.run t (set_task r.store thread t (record w { taskq = q })) in
    let w2 = set_task r.clear thread null w1 in
    if ret == 0 then settle t w2 else exited enomem (cleanup w2)
dispatch thread r w (empty q) = exited 0 (cleanup (record w { taskq = q }))
dispatch thread r w (waiting q) = asleep (record w { taskq = q })

-- One turn of the loop.
unfoldable pub turn : Tid → Round → World → Outcome
turn thread r w = dispatch thread r (r.others w) (QueueT.pop true r.waits (r.others w).taskq)

-- The loop, a round for each turn.
unfoldable pub turns : Tid → List Round → World → Outcome
turns thread [] w = running w
turns thread (r ∷ rs) w = elim (turn thread r w) [
  | running w1 ↦ turns thread rs w1
  | asleep w1 ↦ asleep w1
  | exited code w1 ↦ exited code w1
]

-- `worker` in the thread `thread`: `landing` is its variable for the context, and `err` what
-- `pthread_setspecific` returns for it.
unfoldable pub worker : Tid → (landing : Ptr) → (err : ℕ) → List Round → World → Outcome
unfolding set_context
worker thread landing err rounds w = turns thread rounds (set_context err thread landing w)
