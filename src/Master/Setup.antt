-- ===== src/Master/Setup.antt =====
-- `master_init` and `master_deinit` of pcaio/master.c.
use pcaio.Prelude.{
  ℕ, zero, suc, ◌+◌, true, false, not, Option, ltb, ◌==◌, if◌then◌else◌, null, Status, done, failed,
  Tid,
}
use pcaio.QueueT
use pcaio.ListT
use pcaio.Threadlocal
use pcaio.Threadpool
use pcaio.World.{World}
use pcaio.Master.{State, Callbacks, modules_max, address}

-- What the system answers during `master_init`: `calloc` for the array of the threads, and the
-- error codes of `pthread_mutex_init` and of the two calls of `pthread_key_create`.
pub record Setup : Type 0 where
  pub threads : Option (ℕ → Tid)
  pub mutex : ℕ
  pub task_key : ℕ
  pub context_key : ℕ

-- The loop over the modules that have an `init`.
unfoldable pub init_from : {M : Type 0} → Callbacks M → (fuel i : ℕ) → State M → Status × State M
init_from {M} cb zero i s = (done, s)
init_from {M} cb (suc fuel) i s =
    let m = s.modules i in
    let (r, s1) = if cb.has_init m then cb.init m s else (done, s) in
    let rest : Status × State M = elim r [
      | done ↦ init_from cb fuel (i + 1) s1
      | failed ↦ (failed, s1)
    ] in
    if ltb i s.modulescount then rest else (done, s)

-- `tasklist_deinit` and `taskqueue_deinit`.
unfoldable pub deinit_lists : World → World
deinit_lists w = record w { tasks = ListT.deinit w.tasks; taskq = QueueT.deinit w.taskq }

-- The label `failed` of `master_init`.
unfoldable pub init_failed : {M : Type 0} → State M → Status × State M
unfolding deinit_lists
init_failed s =
    (failed, record s { pool = (Threadpool.deinit address s.pool).1; world = deinit_lists s.world })

-- The middle of `master_init`, once the thread pool is there: the keys and the modules.
unfoldable pub init_rest :
    {M : Type 0} → Callbacks M → Setup → (workers : ℕ) → State M → Status × State M
unfolding init_failed
init_rest cb sys workers s =
    let (task_made, task_key) = Threadlocal.init sys.task_key address s.world.task_key in
    let (context_made, context_key) = Threadlocal.init sys.context_key null s.world.context_key in
    let s1 = record s { world = record s.world { task_key = task_key } } in
    let s2 = record s1 { world = record s1.world { context_key = context_key } } in
    let (ran, s3) = init_from cb modules_max 0 s2 in
    elim task_made [
      | failed ↦ init_failed s1
      | done ↦ elim context_made [
        | failed ↦ init_failed s2
        | done ↦ elim ran [
          | failed ↦ init_failed s3
          | done ↦ (done, record s3 { workers = workers; cancel = false })
        ]
      ]
    ]

-- `master_init`.
unfoldable pub init :
    {M : Type 0} → Callbacks M → Setup → (workers : ℕ) → State M → Status × State M
unfolding deinit_lists init_rest
init cb sys workers s =
    let w1 = record s.world {
      tasks = ListT.init s.world.tasks;
      taskq = QueueT.init s.world.taskq.next;
    } in
    let (pooled, pool) = Threadpool.init address sys.threads sys.mutex s.pool in
    let s1 = record s { world = w1; pool = pool } in
    if not (s.workers == 0) then (failed, s) else elim pooled [
      | failed ↦ (failed, record s1 { world = deinit_lists w1 })
      | done ↦ init_rest cb sys workers s1
    ]

-- The loop over the modules that have a `dtor`, whose result is only logged.
unfoldable pub dtor_from : {M : Type 0} → Callbacks M → (fuel i : ℕ) → State M → State M
dtor_from cb zero i s = s
dtor_from cb (suc fuel) i s =
    let m = s.modules i in
    let s1 = if cb.has_dtor m then (cb.dtor m s).1 else s in
    let rest = dtor_from cb fuel (i + 1) s1 in if ltb i s.modulescount then rest else s

-- `memset(&state, 0, sizeof(state))`, and the store behind it. What is outside of `struct master`
-- stays: the fields of the tasks, the thread-local storage, and what was done to the threads.
unfoldable pub zeroed : {M : Type 0} → State M → State M
zeroed s = record s {
  workers = 0;
  cancel = true;
  modulescount = 0;
  modules = λ _. null;
  pool = record s.pool { count = 0; threads = λ _. 0; mutex = false };
  world = record s.world {
    tasks = record s.world.tasks { head = null; tail = null; count = 0; mutex = false };
    taskq = record s.world.taskq { head = null; tail = null; count = 0; mutex = false };
  };
}

-- `master_deinit`.
unfoldable pub deinit : {M : Type 0} → Callbacks M → State M → Status × State M
unfolding deinit_lists dtor_from zeroed
deinit cb s =
    let w1 = record s.world {
      task_key = Threadlocal.delete s.world.task_key;
      context_key = Threadlocal.delete s.world.context_key;
    } in
    let s1 = record s { pool = (Threadpool.deinit address s.pool).1; world = deinit_lists w1 } in
    (done, zeroed (dtor_from cb modules_max 0 s1))
