-- ===== src/Worker/Team.antt =====
-- Several workers (pcaio/worker.c) that run tasks to their end: each turn of a worker in three steps,
-- between which the others take theirs.
pub mod Count
pub mod Landing
pub mod Going
pub mod Stays
pub mod Moves
pub mod Ends
pub mod Wakes
pub mod Hook
pub mod Trace
pub mod Turn
pub mod Busy
pub mod Finish
pub mod Group
pub mod Gatherer
mod Tests
use pcaio.Prelude.{
  Option, is_null, done, failed, if◌then◌else◌, ℕ, zero, suc, ◌+◌, ◌*◌, ◌≡◌, none, some, List, [],
  ◌∷◌, ◌++◌, Ptr, null, Tid, true,
}
use pcaio.QueueT
use pcaio.QueueT.{Queue, got}
use pcaio.World.{World}
use pcaio.Worker.{running, set_task, settle}
use pcaio.Relax.{relax}
use pcaio.Task
use pcaio.Threadlocal
use pcaio.Worker.Plan.{Act}
use pcaio.Worker.Needs.{next_act, next_need, total}

-- Where a worker is in its turn: in its wait for a task, in the switch to a task, or behind it, when
-- the task has done this.
pub data Phase : Type 0 where
  idle : Phase
  runs : Ptr → Phase
  back : Act → Ptr → Phase

pub record Slot : Type 0 where
  pub thread : Tid
  pub phase : Phase

-- The workers, what all threads share, and how often each task will still give way.
pub record Team : Type 0 where
  pub world : World
  pub need : Ptr → ℕ
  pub slots : List Slot

abbrev pub at : Tid → Phase → Slot
at i p = record { thread = i; phase = p }

-- The call `pcaio_relaxA(0)` of the task that runs in the thread `i`, where `swapcontext` succeeds: the
-- world in which its worker goes on, none if the call fails, and the task has not left.
unfoldable pub gives_way : Tid → World → Option World
unfolding relax
gives_way i w =
    let (left, v) = relax i (λ u. (done, u)) 0 w in elim left [ done ↦ some v | failed ↦ none ]

-- What `_taskmain` does in the thread `i` once the function of `t`, which has no callback, has returned
-- `code`: the world in which the worker goes on, none if the thread has no context to land in and
-- `_taskmain` runs off its end.
unfoldable pub returns : Tid → (code : ℕ) → Ptr → World → Option World
unfolding Threadlocal.get Task.finish
returns i code t w =
    let v = Task.finish (λ c u v. v) t code w in
    if is_null (Threadlocal.get i v.context_key) then none else some v

abbrev pub comes_out : Tid → Act → Ptr → World → Option World
comes_out i none t w = gives_way i w
comes_out i (some code) t w = returns i code t w

-- One step of one worker: it takes a task from the queue and stores it as its own, where
-- `pthread_setspecific` succeeds; the task gives way or ends, and comes back, which it does only if the
-- thread has stored a task and a context; the worker forgets the task and settles it. `err` is what
-- `pthread_setspecific` returns there.
pub data Step (code : Ptr → ℕ) (c : Team) : Team → Type 0 where
  takes :
      (ls rs : List Slot) (i : Tid) (t : Ptr) (q : Queue)
      → c.slots ≡ ls ++ (at i idle ∷ rs)
      → QueueT.pop true [] c.world.taskq ≡ got t q
      → Step code c (record c {
        world = set_task 0 i t (record c.world { taskq = q });
        slots = ls ++ (at i (runs t) ∷ rs);
      })
  comes :
      (ls rs : List Slot) (i : Tid) (t : Ptr) (v : World)
      → c.slots ≡ ls ++ (at i (runs t) ∷ rs)
      → comes_out i (next_act code c.need t) t c.world ≡ some v
      → Step code c (record c {
        world = v;
        need = next_need c.need t;
        slots = ls ++ (at i (back (next_act code c.need t) t) ∷ rs);
      })
  settles :
      (ls rs : List Slot) (i : Tid) (err : ℕ) (o : Act) (t : Ptr) (v : World)
      → c.slots ≡ ls ++ (at i (back o t) ∷ rs)
      → settle t (set_task err i null c.world) ≡ running v
      → Step code c (record c { world = v; slots = ls ++ (at i idle ∷ rs) })

-- This many steps, of the workers in any order.
pub data Steps (code : Ptr → ℕ) : ℕ → Team → Team → Type 0 where
  stay : {c : Team} → Steps code 0 c c
  go : {n : ℕ} {c c' c'' : Team} → Step code c c' → Steps code n c' c'' → Steps code (suc n) c c''

-- The tasks that the workers have.
abbrev pub in_phase : Phase → List Ptr
in_phase idle = []
in_phase (runs t) = t ∷ []
in_phase (back o t) = t ∷ []

abbrev pub held : List Slot → List Ptr
held [] = []
held (s ∷ ss) = in_phase s.phase ++ held ss

-- The tasks that the workers have and that have not ended.
abbrev pub unended : Phase → List Ptr
unended idle = []
unended (runs t) = t ∷ []
unended (back none t) = t ∷ []
unended (back (some code) t) = []

abbrev pub active : List Slot → List Ptr
active [] = []
active (s ∷ ss) = unended s.phase ++ active ss

-- How many steps the task of a worker still takes: three for each turn that it has not begun, and
-- what is left of its present turn.
abbrev pub owed_in : (Ptr → ℕ) → Phase → ℕ
owed_in need idle = 0
owed_in need (runs t) = 3 * need t + 2
owed_in need (back none t) = 3 * (need t + 1) + 1
owed_in need (back (some code) t) = 1

abbrev pub owed : (Ptr → ℕ) → List Slot → ℕ
owed need [] = 0
owed need (s ∷ ss) = owed_in need s.phase + owed need ss

abbrev pub AllIdle : List Slot → Type 0
AllIdle [] = Unit {0}
AllIdle (s ∷ ss) = (s.phase ≡ idle) × AllIdle ss

-- The steps that are left, when the tasks `xs` wait in the queue and the tasks `ps` for others.
abbrev pub steps_left : (Ptr → ℕ) → List Slot → (xs ps : List Ptr) → ℕ
steps_left need slots xs ps = 3 * total need xs + 3 * total need ps + owed need slots
