-- ===== src/Api.antt =====
-- pcaio/pcaio.c: what the user of the library calls.
pub mod Schedule
pub mod Run
pub mod Whole
pub mod Complete
pub mod Crowd
mod Tests
use pcaio.Prelude.{
  ℕ, ◌+◌, List, [], ◌∷◌, ◌++◌, ◌==◌, if◌then◌else◌, Ptr, null, is_null, update, Status, done,
  failed, length,
}
use pcaio.World.{World, enqueue, schedule}
use pcaio.Task
use pcaio.Task.{System}

-- The second half of `pcaio_fschedule`: what `task_new` returned is queued, or freed again.
unfoldable pub queue_new : Ptr × World → Ptr × World
queue_new (t, w) =
    if is_null t
    then (null, w)
    else (let (s, w1) = enqueue t w in elim s [ done ↦ (t, w1) | failed ↦ (null, Task.free t w1) ])

-- `pcaio_fschedule`: the task, made and queued, or NULL.
unfoldable pub fschedule :
    System → (func status : Ptr) → (argc : ℕ) → List Ptr → World → Ptr × World
fschedule sys func status argc args w = queue_new (Task.new sys func status argc args w)

-- `pcaio_task_callback`.
unfoldable pub task_callback : Ptr → Ptr → World → World
task_callback t cb w = record w { callback = update w.callback t cb }

-- `pcaio_task_free`.
unfoldable pub task_free : Ptr → World → Status × World
task_free t w = if is_null t then (failed, w) else (done, Task.free t w)
