-- ===== src/IoEvent.antt =====
-- `struct pcaio_ioevent` of include/pcaio/modio.h, which a task keeps on its stack while it waits:
-- the descriptor, the events that it waits for and later those that came, and the task.
use pcaio.Prelude.{ℕ, Ptr, List, map, update, AllNonNull, Distinct, Apart}

pub record IoEvents : Type 0 where
  pub fd : Ptr → ℕ
  pub events : Ptr → ℕ
  pub task : Ptr → Ptr

-- `e->events = events`
abbrev pub set_events : Ptr → ℕ → IoEvents → IoEvents
set_events e events io = record io { events = update io.events e events }

-- The three fields of a new event.
abbrev pub make : Ptr → (fd events : ℕ) → (task : Ptr) → IoEvents → IoEvents
make e fd events task io = record {
  fd = update io.fd e fd;
  events = update io.events e events;
  task = update io.task e task;
}

-- The tasks that wait are new to the queue.
abbrev pub NewTasks : IoEvents → List Ptr → List Ptr → Type 0
NewTasks io es queued =
    AllNonNull (map io.task es) × Distinct (map io.task es) × Apart queued (map io.task es)
