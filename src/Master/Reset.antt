-- ===== src/Master/Reset.antt =====
-- What `master_init` and `master_deinit` of pcaio/master.c leave of the state.
use pcaio.Prelude.{
  Bool-cases, inl, inr, ltb, if◌then◌else◌, ℕ, zero, suc, ◌+◌, ◌≡◌, refl, sym, subst, ◌≢◌, ◌⊎◌,
  true, false, none, some, List, [], arith, Ptr, null, Status, done, failed, Tid,
}
use pcaio.QueueT
use pcaio.QueueT.Fifo.{IsQueue, init-IsQueue}
use pcaio.ListT
use pcaio.ListT.Refine.{IsList}
use pcaio.Threadlocal
use pcaio.Threadpool
use pcaio.World.{World}
use pcaio.Master.{State, Callbacks, modules_max, address}
use pcaio.Master.Setup.{Setup, init_from, deinit_lists, init_failed, init_rest, init}

-- The modules' own functions to start and to stop succeed, and change nothing but what the modules
-- keep themselves.
pub record Harmless {M : Type 0} (cb : Callbacks M) : Type 0 where
  pub inits : (m : Ptr) (s : State M) → (v : M) × (cb.init m s ≡ (done, record s { memory = v }))
  pub dtors : (m : Ptr) (s : State M) → (v : M) × ((cb.dtor m s).1 ≡ record s { memory = v })

-- The system grants what `master_init` asks for.
pub record Granted (sys : Setup) (threads : ℕ → Tid) : Type 0 where
  pub array : sys.threads ≡ some threads
  pub mutex : sys.mutex ≡ 0
  pub task_key : sys.task_key ≡ 0
  pub context_key : sys.context_key ≡ 0

init_one-Harmless :
    {M : Type 0} (cb : Callbacks M) (m : Ptr) (s : State M)
    → Harmless cb
    → (v : M) × ((if cb.has_init m then cb.init m s else (done, s))
        ≡ (done, record s { memory = v }))
init_one-Harmless cb m s h =
    let (v, started) = h.inits m s in
    elim (Bool-cases (cb.has_init m)) [
      | inl has ↦ (v, rw has started)
      | inr lacks ↦ (s.memory, rw lacks refl)
    ]

init_from-Harmless :
    {M : Type 0} (cb : Callbacks M) (fuel i : ℕ) (s : State M)
    → Harmless cb
    → (v : M) × (init_from cb fuel i s ≡ (done, record s { memory = v }))
unfolding init_from
init_from-Harmless cb zero i s h = (s.memory, refl)
init_from-Harmless cb (suc fuel) i s h =
    let (v, started) = init_one-Harmless cb (s.modules i) s h in
    let (w, rest) = init_from-Harmless cb fuel (i + 1) (record s { memory = v }) h in
    elim (Bool-cases (ltb i s.modulescount)) [
      | inl more ↦ (w, ground arith)
      | inr end ↦ (s.memory, rw end refl)
    ]

-- The state in which `master` can run `workers` threads over the tasks `zs`.
pub record Ready {M : Type 0} (workers : ℕ) (zs : List Ptr) (s : State M) : Type 0 where
  pub workers_set : s.workers ≡ workers
  pub goes : s.cancel ≡ false
  pub no_threads : s.pool.count ≡ 0
  pub pool_ready : s.pool.ready ≡ true
  pub alive : IsList s.world.tasks zs
  pub queue : IsQueue s.world.taskq []
  pub task_key : s.world.task_key.exists ≡ true
  pub context_key : s.world.context_key.exists ≡ true

-- The world in which `master_init` goes on once the lists are made.
abbrev pub listed : World → World
listed w = record w { tasks = ListT.init w.tasks; taskq = QueueT.init w.taskq.next }

-- The state that `master_init` leaves where everything is granted; `v` is what the modules keep.
abbrev pub started : {M : Type 0} → (ℕ → Tid) → (workers : ℕ) → M → State M → State M
started threads workers v s =
    let w = listed s.world in
    record s {
      pool = record s.pool { count = 0; threads = threads; mutex = false; ready = true };
      world = record w {
        task_key = record w.task_key { exists = true; dtor = address; value = λ _. null };
        context_key = record w.context_key { exists = true; dtor = null; value = λ _. null };
      };
      workers = workers;
      cancel = false;
      memory = v;
    }

-- The two keys made.
abbrev keyed : {M : Type 0} → State M → State M
keyed s = record s {
  world = record s.world {
    task_key = record s.world.task_key { exists = true; dtor = address; value = λ _. null };
    context_key = record s.world.context_key { exists = true; dtor = null; value = λ _. null };
  };
}

init_rest-keyed :
    {M : Type 0} (cb : Callbacks M) (sys : Setup) (workers : ℕ) (s : State M)
    → Harmless cb
    → sys.task_key ≡ 0
    → sys.context_key ≡ 0
    → (v : M) × (init_rest cb sys workers s
        ≡ (done, record (keyed s) { workers = workers; cancel = false; memory = v }))
unfolding init_rest Threadlocal.init
init_rest-keyed cb sys workers s h e e' =
    let (v, ran) = init_from-Harmless cb modules_max 0 (keyed s) h in (v, ground arith)

pub init-started :
    {M : Type 0} (cb : Callbacks M) (sys : Setup) (threads : ℕ → Tid) (workers : ℕ) (s : State M)
    → Harmless cb
    → Granted sys threads
    → s.workers ≡ 0
    → (v : M) × (init cb sys workers s ≡ (done, started threads workers v s))
unfolding init Threadpool.init
init-started cb sys threads workers s h g idle =
    let pool : Threadpool.Threadpool = record s.pool {
      count = 0;
      threads = threads;
      mutex = false;
      ready = true;
    } in
    let (v, rest) =
      init_rest-keyed cb sys workers (record s { world = listed s.world; pool = pool }) h g.task_key
        g.context_key in
    (v, ground arith)

pub started-Ready :
    {M : Type 0} (threads : ℕ → Tid) (workers : ℕ) (v : M) (s : State M) {zs : List Ptr}
    → IsList s.world.tasks zs
    → ((a : Ptr) → s.world.taskq.next a ≡ null)
    → Ready workers zs (started threads workers v s)
unfolding ListT.init
started-Ready threads workers v s l unlinked = record {
  workers_set = refl;
  goes = refl;
  no_threads = refl;
  pool_ready = refl;
  alive = record {
    chain = l.chain;
    tail_last = l.tail_last;
    counted = l.counted;
    small = l.small;
    distinct = l.distinct;
    loose = l.loose;
  };
  queue = init-IsQueue s.world.taskq.next unlinked;
  task_key = refl;
  context_key = refl;
}

-- If the library is not running, the system grants everything, the modules start and stop,
-- and no task is linked in a queue, then `master_init` succeeds: the loop may run, the pool and
-- both keys exist, no thread runs, no task waits, and the tasks that were made before are still
-- alive.
pub init-Ready :
    {M : Type 0} (cb : Callbacks M) (sys : Setup) (threads : ℕ → Tid) (workers : ℕ) (s : State M)
    {zs : List Ptr}
    → Harmless cb
    → Granted sys threads
    → s.workers ≡ 0
    → IsList s.world.tasks zs
    → ((a : Ptr) → s.world.taskq.next a ≡ null)
    → ((init cb sys workers s).0 ≡ done) × Ready workers zs (init cb sys workers s).1
init-Ready {M} cb sys threads workers s {zs} h g idle l unlinked =
    let (v, same) = init-started cb sys threads workers s h g idle in
    subst (λ (o : Status × State M). (o.0 ≡ done) × Ready workers zs o.1) (sym same)
      (refl, started-Ready threads workers v s l unlinked)

-- Something that `master_init` asks for is refused.
abbrev pub Refused : Setup → Type 0
Refused sys =
    (sys.threads ≡ none) ⊎ ((sys.mutex ≢ 0) ⊎ ((sys.task_key ≢ 0) ⊎ (sys.context_key ≢ 0)))

-- What a `master_init` that fails leaves of a library that was not running: it is still not
-- running, and has no pool.
pub record Undone {M : Type 0} (s : State M) (out : Status × State M) : Type 0 where
  pub reported : out.0 ≡ failed
  pub idle : out.1.workers ≡ 0
  pub same_cancel : out.1.cancel ≡ s.cancel
  pub no_pool : out.1.pool.ready ≡ false
  pub no_queue : out.1.world.taskq.head ≡ null
  pub same_tasks : out.1.world.tasks.head ≡ s.world.tasks.head

-- If the system refuses something while the library is not running and has no pool, `master_init`
-- fails and undoes what it had made of the pool: there is none, nothing waits, and the library is
-- still not running.
pub init-Undone :
    {M : Type 0} (cb : Callbacks M) (sys : Setup) (workers : ℕ) (s : State M)
    → Refused sys
    → s.workers ≡ 0
    → s.pool.ready ≡ false
    → Undone s (init cb sys workers s)
unfolding init init_rest init_failed deinit_lists Threadpool.init Threadpool.deinit Threadlocal.init
    QueueT.init QueueT.deinit ListT.init ListT.deinit
init-Undone cb sys workers s r idle unmade = record {
  reported = ground arith;
  idle = ground arith;
  same_cancel = ground arith;
  no_pool = ground arith;
  no_queue = ground arith;
  same_tasks = ground arith;
}

-- A library that runs refuses to be started again, and nothing changes.
pub init_again :
    {M : Type 0} (cb : Callbacks M) (sys : Setup) (workers : ℕ) (s : State M)
    → s.workers ≢ 0
    → init cb sys workers s ≡ (failed, s)
unfolding init
init_again cb sys workers s n = ground arith
