-- ===== src/Worker/Crew.antt =====
-- Several workers (pcaio/worker.c) over one queue: the steps that they and the tasks take, in any
-- order.
use pcaio.Prelude.{ℕ, suc, ◌≡◌, ◌≢◌, [], Ptr, Tid, update, true}
use pcaio.QueueT
use pcaio.QueueT.{Queue, got}
use pcaio.World.{World, schedule}
use pcaio.Worker.{running, settle}

-- What a worker does: it waits for a task, or the task has the processor.
pub data Phase : Type 0 where
  idle : Phase
  runs : Ptr → Phase

pub record Crew : Type 0 where
  pub world : World
  pub phase : Tid → Phase

-- One step: a worker takes a task from the queue; it settles the task that came back; a task changes
-- what does not belong to the queue; or somebody calls `pcaio_schedule`.
pub data Step : Crew → Crew → Type 0 where
  takes :
      {c : Crew} (i : Tid) (t : Ptr) (q : Queue)
      → c.phase i ≡ idle
      → QueueT.pop true [] c.world.taskq ≡ got t q
      → Step c
          (record c { world = record c.world { taskq = q }; phase = update c.phase i (runs t) })
  settles :
      {c : Crew} (i : Tid) (t : Ptr) (v : World)
      → c.phase i ≡ runs t
      → settle t c.world ≡ running v
      → Step c (record c { world = v; phase = update c.phase i idle })
  works :
      {c : Crew} (i : Tid) (t : Ptr) (v : World)
      → c.phase i ≡ runs t
      → v.taskq ≡ c.world.taskq
      → Step c (record c { world = v })
  schedules : {c : Crew} (t : Ptr) → t ≢ 0 → Step c (record c { world = (schedule t c.world).1 })

-- Nobody schedules a task that has the processor.
abbrev pub Timely : {c c' : Crew} → Step c c' → Type 0
Timely (takes i t q free got_it) = Unit {0}
Timely (settles i t v has_it back) = Unit {0}
Timely (works i t v has_it same) = Unit {0}
Timely {c} (schedules t n) = (i : Tid) → c.phase i ≢ runs t

-- This many steps, all of them timely.
pub data Steps : ℕ → Crew → Crew → Type 0 where
  stay : {c : Crew} → Steps 0 c c
  go : {n : ℕ} {c c' c'' : Crew} (s : Step c c') → Timely s → Steps n c' c'' → Steps (suc n) c c''
