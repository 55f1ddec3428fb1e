-- ===== src/World.antt =====
-- What all threads share: the task queue and the task list of `struct master`
-- (pcaio/master.h), the fields of every `struct pcaio_task` (pcaio/task.h), and those of every
-- `struct gather` (pcaio/gather.h). `pcaio_schedule` of pcaio/pcaio.c stands here too.
use pcaio.Prelude.{ℕ, Bool, List, if◌then◌else◌, Ptr, is_null, Status, failed}
use pcaio.QueueT
use pcaio.QueueT.{Queue}
use pcaio.ListT.{DList}
use pcaio.Threadlocal.{Key}

-- `flags` to `callback` are fields of the tasks: `stack` is `context.uc_stack.ss_sp`, `entry` the
-- two words that `makecontext` passes to `_taskmain`, `terminated` says whether the hook is
-- `gather_taskterminated` (it is NULL otherwise). `gather_count` to `gather_mutex` are fields of
-- the gathers, the last one false once the mutex is destroyed. `status_at` is the memory behind the
-- status pointers, `freed` what was given to `free`, the latest first, and
-- `task_key` and `context_key` are the two keys of the thread-local storage: the task that each
-- thread runs, and the context that it lands in.
pub record World : Type 0 where
  pub taskq : Queue
  pub tasks : DList
  pub flags : Ptr → ℕ
  pub stack : Ptr → Ptr
  pub entry : Ptr → ℕ × ℕ
  pub gather : Ptr → Ptr
  pub terminated : Ptr → Bool
  pub status : Ptr → Ptr
  pub func : Ptr → Ptr
  pub callback : Ptr → Ptr
  pub argc : Ptr → ℕ
  pub argv : Ptr → ℕ → Ptr
  pub gather_count : Ptr → ℕ
  pub gather_task : Ptr → Ptr
  pub gather_mutex : Ptr → Bool
  pub status_at : Ptr → ℕ
  pub freed : List Ptr
  pub task_key : Key
  pub context_key : Key

-- `enum taskflags` of include/pcaio/pcaio.h.
abbrev pub task_terminated : ℕ
task_terminated = 0x1

abbrev pub task_noschedule : ℕ
task_noschedule = 0x2

-- `taskqueue_push` on the one queue.
unfoldable pub enqueue : Ptr → World → Status × World
enqueue t w = let (s, q) = QueueT.push t w.taskq in (s, record w { taskq = q })

-- `pcaio_schedule`.
unfoldable pub schedule : Ptr → World → Status × World
unfolding enqueue
schedule t w = if is_null t then (failed, w) else enqueue t w
