-- ===== src/Api/Run.antt =====
-- `pcaio` of pcaio/pcaio.c: from the first task to the last.
use pcaio.Prelude.{
  ℕ, ◌||◌, not, Option, none, some, List, true, ◌==◌, if◌then◌else◌, Ptr, Status, done, failed, Tid,
  length,
}
use pcaio.QueueT
use pcaio.Threadpool
use pcaio.Master.{State, Callbacks, master}
use pcaio.Master.Setup
use pcaio.Master.Setup.{Setup}

-- `_signal`.
unfoldable pub signal : {M : Type 0} → State M → State M
signal s = record s { cancel = true }

-- What the system answers during one call of `pcaio`: to `master_init`, to `sigemptyset` and
-- `sigaction`, and to what `master` asks.
pub record Answers : Type 0 where
  pub setup : Setup
  pub emptyset : ℕ
  pub action : ℕ
  pub context : ℕ
  pub grow : Threadpool.System
  pub shrink : Threadpool.System

-- `taskqueue_pushall` on the one queue.
abbrev pub queue_all : {M : Type 0} → List Ptr → State M → Status × State M
queue_all tasks s =
    let (r, q) = QueueT.pushall tasks s.world.taskq in
    (r, record s { world = record s.world { taskq = q } })

-- `pcaio` in the thread `thread`; none while the main loop runs.
unfoldable pub pcaio_run :
    {M : Type 0}
    → Tid
    → Callbacks M
    → Answers
    → List (State M → State M)
    → (workers : ℕ) → List Ptr
    → State M
    → Option (Status × State M)
pcaio_run thread cb sys rounds workers tasks s =
    let (ready, s1) = Setup.init cb sys.setup workers s in
    let (pushed, s2) = queue_all tasks s1 in
    if length tasks == 0 then some (failed, s) else elim ready [
      | failed ↦ some (failed, s1)
      | done ↦
          if not (sys.emptyset == 0) || not (sys.action == 0)
          then some (failed, s1)
          else elim pushed [
            | failed ↦ some (failed, s2)
            | done ↦ elim (master thread sys.context cb sys.grow sys.shrink rounds s2) [
              | none ↦ none
              | some (ret, s3) ↦ some (ret, (Setup.deinit cb s3).1)
            ]
          ]
    ]
