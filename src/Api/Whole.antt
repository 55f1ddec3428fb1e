-- ===== src/Api/Whole.antt =====
-- What a call of `pcaio` (pcaio/pcaio.c) does from its start to its end.
use pcaio.Prelude.{
  ℕ, ◌^◌, ◌<◌, ◌≡◌, refl, ap, ◌∙◌, ◌≢◌, ◌⊎◌, true, false, not, ◌||◌, none, some, List, ◌∷◌, arith,
  ◌==◌, Ptr, null, Status, done, failed, Tid, length, AllNonNull, Distinct,
}
use pcaio.QueueT.Fifo.{IsQueue}
use pcaio.QueueT.Batch.{pushall-fresh}
use pcaio.ListT.Refine.{IsList}
use pcaio.Threadpool
use pcaio.Master.{State, Callbacks, main_loop, ended, running, master, address}
use pcaio.Master.Setup
use pcaio.Master.Setup.{Setup, zeroed}
use pcaio.Master.Reset.{Harmless, Granted, init-Ready, init_again}
use pcaio.Task.Life.{release}
use pcaio.Master.Whole.{grown, master-frees}
use pcaio.Master.Restart.{deinit-zeroed}
use pcaio.Api.Run.{Answers, queue_all, pcaio_run}

-- The state in which `pcaio` calls `master`.
abbrev pub begun :
    {M : Type 0} → Callbacks M → Answers → (workers : ℕ) → List Ptr → State M → State M
begun cb sys workers tasks s = (queue_all tasks (Setup.init cb sys.setup workers s).1).1

-- The system grants what `pcaio` asks for before it calls `master`.
pub record Willing (sys : Answers) (threads : ℕ → Tid) : Type 0 where
  pub setup : Granted sys.setup threads
  pub emptyset : sys.emptyset ≡ 0
  pub action : sys.action ≡ 0

pcaio_run-master :
    {M : Type 0} (thread : Tid) (cb : Callbacks M) (sys : Answers)
    (rounds : List (State M → State M)) (workers : ℕ) (t : Ptr) (ts : List Ptr) (s final : State M)
    (ret : Status)
    → (Setup.init cb sys.setup workers s).0 ≡ done
    → sys.emptyset ≡ 0
    → sys.action ≡ 0
    → (queue_all (t ∷ ts) (Setup.init cb sys.setup workers s).1).0 ≡ done
    → master thread sys.context cb sys.grow sys.shrink rounds (begun cb sys workers (t ∷ ts) s)
      ≡ some (ret, final)
    → pcaio_run thread cb sys rounds workers (t ∷ ts) s ≡ some (ret, (Setup.deinit cb final).1)
unfolding pcaio_run
pcaio_run-master thread cb sys rounds workers t ts s final ret ready set acted pushed ran =
    let granted : (not (sys.emptyset == 0) || not (sys.action == 0)) ≡ false = ground arith in
    let some_task : (length (t ∷ ts) == 0) ≡ false = ground arith in
    rw (some_task, ready, granted, pushed, ran) refl

-- While the main loop runs, `pcaio` has not returned.
pub pcaio_run-waits :
    {M : Type 0} (thread : Tid) (cb : Callbacks M) (sys : Answers) (threads : ℕ → Tid)
    (rounds : List (State M → State M)) (workers : ℕ) (t : Ptr) (ts : List Ptr) (s v : State M)
    {zs : List Ptr}
    → Harmless cb
    → Willing sys threads
    → s.workers ≡ 0
    → IsList s.world.tasks zs
    → ((a : Ptr) → s.world.taskq.next a ≡ null)
    → Distinct (t ∷ ts)
    → AllNonNull (t ∷ ts)
    → length (t ∷ ts) < 2 ^ 64
    → (Threadpool.scale sys.grow address
        (begun cb sys workers (t ∷ ts) s).workers
        (begun cb sys workers (t ∷ ts) s).pool).0
      ≡ done
    → main_loop cb rounds true (grown thread sys.context sys.grow (begun cb sys workers (t ∷ ts) s))
      ≡ running v
    → pcaio_run thread cb sys rounds workers (t ∷ ts) s ≡ none
unfolding pcaio_run master grown
pcaio_run-waits thread cb sys threads rounds workers t ts s v h g idle l unlinked d n few scaled
      loops =
    let (ready, state) = init-Ready cb sys.setup threads workers s h g.setup idle l unlinked in
    let (pushed, queued) = pushall-fresh t ts state.queue d n few in
    let granted : (not (sys.emptyset == 0) || not (sys.action == 0)) ≡ false =
      ground (arith, g.emptyset, g.action) in
    let some_task : (length (t ∷ ts) == 0) ≡ false = ground arith in
    rw (some_task, ready, granted, pushed, master, scaled, loops) refl

-- What `master_deinit` leaves: nothing runs, and what was freed is what was freed.
deinit-idle :
    {M : Type 0} (cb : Callbacks M) (s : State M)
    → Harmless cb
    → ((Setup.deinit cb s).1.workers ≡ 0) × ((Setup.deinit cb s).1.world.freed ≡ s.world.freed)
unfolding zeroed Setup.deinit_lists
deinit-idle {M} cb s h =
    let (v, stopped) = deinit-zeroed cb s h in
    let same = ap (λ (o : Status × State M). o.1) stopped in
    (ap (λ (t : State M). t.workers) same, ap (λ (t : State M). t.world.freed) same)

-- A call of `pcaio` with at least one task, where no task is linked yet, none is NULL and none stands
-- twice, the system grants what is asked and the modules start and stop: the main loop begins
-- with exactly these tasks waiting in their order, and with all tasks that were made alive. Once
-- the main loop has ended, `pcaio` returns what the shrinking of the pool to 0 reports, every task
-- that was left then is freed once, and the library does not run any more.
pub pcaio-runs :
    {M : Type 0} (thread : Tid) (cb : Callbacks M) (sys : Answers) (threads : ℕ → Tid)
    (rounds : List (State M → State M)) (workers : ℕ) (t : Ptr) (ts : List Ptr) (s s1 : State M)
    {zs left : List Ptr}
    → Harmless cb
    → Willing sys threads
    → s.workers ≡ 0
    → IsList s.world.tasks zs
    → ((a : Ptr) → s.world.taskq.next a ≡ null)
    → Distinct (t ∷ ts)
    → AllNonNull (t ∷ ts)
    → length (t ∷ ts) < 2 ^ 64
    → (Threadpool.scale sys.grow address
        (begun cb sys workers (t ∷ ts) s).workers
        (begun cb sys workers (t ∷ ts) s).pool).0
      ≡ done
    → main_loop cb rounds true (grown thread sys.context sys.grow (begun cb sys workers (t ∷ ts) s))
      ≡ ended s1
    → IsList s1.world.tasks left
    → IsQueue (begun cb sys workers (t ∷ ts) s).world.taskq (t ∷ ts)
      × IsList (begun cb sys workers (t ∷ ts) s).world.tasks zs
      × ((final : State M) × (pcaio_run thread cb sys rounds workers (t ∷ ts) s
            ≡ some ((Threadpool.scale sys.shrink address 0 s1.pool).0, final))
          × (final.world.freed ≡ release s1.world.stack left s1.world.freed)
          × (final.workers ≡ 0))
pcaio-runs thread cb sys threads rounds workers t ts s s1 h g idle l unlinked d n few scaled loops
      is =
    let (ready, state) = init-Ready cb sys.setup threads workers s h g.setup idle l unlinked in
    let (pushed, queued) = pushall-fresh t ts state.queue d n few in
    let (final, ran, _, freed) =
      master-frees thread sys.context cb sys.grow sys.shrink rounds
        (begun cb sys workers (t ∷ ts) s) s1 scaled loops is in
    let (stopped, same) = deinit-idle cb final h in
    (
      queued,
      state.alive,
      (
        (Setup.deinit cb final).1,
        pcaio_run-master thread cb sys rounds workers t ts s final
            (Threadpool.scale sys.shrink address 0 s1.pool).0 ready g.emptyset g.action pushed ran,
        same ∙ freed,
        stopped,
      ),
    )

-- When the system grants what `master_init` asks for, but refuses `sigemptyset` or `sigaction`, a call
-- of `pcaio` for some workers and with tasks fails without `master_deinit`: every later call with
-- tasks fails then and changes nothing.
pub pcaio_sticks :
    {M : Type 0} (thread : Tid) (cb : Callbacks M) (sys later : Answers) (threads : ℕ → Tid)
    (rounds rounds' : List (State M → State M)) (workers workers' : ℕ) (t t' : Ptr)
    (ts ts' : List Ptr) (s : State M) {zs : List Ptr}
    → Harmless cb
    → Granted sys.setup threads
    → s.workers ≡ 0
    → IsList s.world.tasks zs
    → ((a : Ptr) → s.world.taskq.next a ≡ null)
    → workers ≢ 0
    → (sys.emptyset ≢ 0) ⊎ (sys.action ≢ 0)
    → (s1 : State M) × (pcaio_run thread cb sys rounds workers (t ∷ ts) s ≡ some (failed, s1))
      × (pcaio_run thread cb later rounds' workers' (t' ∷ ts') s1 ≡ some (failed, s1))
unfolding pcaio_run
pcaio_sticks {M} thread cb sys later threads rounds rounds' workers workers' t t' ts ts' s h g idle
      l unlinked some_workers refused =
    let (ready, state) = init-Ready cb sys.setup threads workers s h g idle l unlinked in
    let s1 = (Setup.init cb sys.setup workers s).1 in
    let again = init_again cb later.setup workers' s1 (ground (arith, state.workers_set)) in
    let refuses : (not (sys.emptyset == 0) || not (sys.action == 0)) ≡ true = ground arith in
    let fails : (Setup.init cb later.setup workers' s1).0 ≡ failed =
      ap (λ (o : Status × State M). o.0) again in
    let same : (Setup.init cb later.setup workers' s1).1 ≡ s1 =
      ap (λ (o : Status × State M). o.1) again in
    let some_task : (length (t ∷ ts) == 0) ≡ false = ground arith in
    let some_task' : (length (t' ∷ ts') == 0) ≡ false = ground arith in
    (s1, rw (some_task, ready, refuses) refl, rw (some_task', fails, same) refl)
