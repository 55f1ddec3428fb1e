-- ===== src/Api/Complete.antt =====
-- A call of `pcaio` (pcaio/pcaio.c) whose tasks run to their end.
use pcaio.Prelude.{
  ℕ, ◌^◌, ◌<◌, ◌≡◌, refl, sym, ap, ◌∙◌, subst, true, false, some, List, ◌∷◌, map, arith, Ptr, null,
  Status, done, Tid, length, has, AllNonNull, Distinct,
}
use pcaio.QueueT.Batch.{pushall-fresh}
use pcaio.ListT.Refine.{IsList}
use pcaio.Task.Life.{release}
use pcaio.Threadpool
use pcaio.Threadpool.Promise.{Grants, scale-done}
use pcaio.Worker.{Round, set_context}
use pcaio.Worker.Turn.{has_ended, is_held}
use pcaio.Worker.Needs.{
  plan, ended_in, total, AllBehave, IsWorking, set_context-IsWorking, ended-members,
}
use pcaio.Master.{State, Callbacks, timeout_long, main_loop, ended, address}
use pcaio.Master.Reset.{Harmless, started, started-Ready, init-started}
use pcaio.Master.Whole.{grown}
use pcaio.Master.Work.{work, loop_on-works}
use pcaio.Api.Run.{Answers, pcaio_run, queue_all}
use pcaio.Api.Whole.{begun, Willing, pcaio-runs}

-- A program before its call of `pcaio`: the library does not run, there is no module, and the tasks
-- `xs` are the ones that were made, none of which is linked, flagged, hooked or has a callback.
pub record IsPrepared {M : Type 0} (s : State M) (xs zs : List Ptr) : Type 0 where
  pub idle : s.workers ≡ 0
  pub no_modules : s.modulescount ≡ 0
  pub alive : IsList s.world.tasks zs
  pub same : (t : Ptr) → has t zs ≡ has t xs
  pub unlinked : (t : Ptr) → s.world.taskq.next t ≡ null
  pub distinct : Distinct xs
  pub tasks : AllNonNull xs
  pub few : length xs < 2 ^ 64
  pub lives : (t : Ptr) → has t xs ≡ true → has_ended s.world t ≡ false
  pub free_to_run : (t : Ptr) → has t xs ≡ true → is_held s.world t ≡ false
  pub no_hook : (t : Ptr) → s.world.terminated t ≡ false
  pub no_callback : (t : Ptr) → s.world.callback t ≡ null

-- A worker starts: it stores the address of its variable for the context.
abbrev pub starts : {M : Type 0} → Tid → (landing : Ptr) → (err : ℕ) → State M → State M
starts thread landing err s = record s { world = set_context err thread landing s.world }

-- The world in which the main loop begins, before a worker has started.
pub grown-IsWorking :
    {M : Type 0} (thread : Tid) (err workers : ℕ) (threads : ℕ → Tid) (grow : Threadpool.System)
    (v : M) (s : State M) (t : Ptr) (ts zs : List Ptr)
    → IsPrepared s (t ∷ ts) zs
    → IsWorking
        (grown thread err grow (queue_all (t ∷ ts) (started threads workers v s)).1).world
        (t ∷ ts)
        zs
unfolding grown
grown-IsWorking thread err workers threads grow v s t ts zs p =
    let ready = started-Ready threads workers v s p.alive p.unlinked in
    record {
      plain = record {
        queue = (pushall-fresh t ts ready.queue p.distinct p.tasks p.few).1;
        alive = ready.alive;
        lives = p.lives;
        free_to_run = p.free_to_run;
        no_hook = p.no_hook;
        no_callback = p.no_callback;
      };
      same = p.same;
    }

-- A whole run. A program without modules makes the tasks `t ∷ ts`, and calls `pcaio` with them; the
-- system grants everything, one worker starts and runs the tasks, of which each gives way as often as
-- `need` says and then returns, nothing else happens, and no signal comes. Then the main loop ends by
-- itself once the last task has ended, `pcaio` returns 0, every task was freed with its stack, each
-- once, in the order in which they ended, and the library does not run any more.
pub pcaio_completes :
    {M : Type 0} (thread worker : Tid) (landing : Ptr) (err : ℕ) (cb : Callbacks M) (sys : Answers)
    (threads : ℕ → Tid) (rs : List Round) (code need : Ptr → ℕ) (workers : ℕ) (t : Ptr)
    (ts zs : List Ptr) (s : State M)
    → Harmless cb
    → ((v : State M) → cb.sleep timeout_long v ≡ v)
    → Willing sys threads
    → Grants sys.grow
    → Grants sys.shrink
    → IsPrepared s (t ∷ ts) zs
    → total need (t ∷ ts) ≡ length rs
    → AllBehave (plan (length rs) code need (t ∷ ts)) rs
    → (final : State M) × (es : List Ptr) × (pcaio_run thread cb sys
          (starts worker landing err ∷ map (work worker) rs)
          workers
          (t ∷ ts)
          s
        ≡ some (done, final))
      × (final.world.freed ≡ release s.world.stack es s.world.freed)
      × Distinct es
      × ((a : Ptr) → has a es ≡ has a (t ∷ ts))
      × (final.workers ≡ 0)
unfolding main_loop grown set_context release
pcaio_completes {M} thread worker landing err cb sys threads rs code need workers t ts zs s h sleeps
      g grows shrinks p e behave =
    let (v, made) = init-started cb sys.setup threads workers s h g.setup p.idle in
    let s0 = (queue_all (t ∷ ts) (started threads workers v s)).1 in
    let same : begun cb sys workers (t ∷ ts) s ≡ s0 =
      ap (λ (o : Status × State M). (queue_all (t ∷ ts) o.1).1) made in
    let rounds = starts worker landing err ∷ map (work worker) rs in
    let (u, ran, over, freed) =
      loop_on-works cb worker rs code need true
        (starts worker landing err (grown thread sys.context sys.grow s0)) (t ∷ ts) zs p.no_modules
        sleeps refl
        (set_context-IsWorking err worker landing (grown thread sys.context sys.grow s0).world
          (grown-IsWorking thread sys.context workers threads sys.grow v s t ts zs p))
        e behave in
    let s1 : State M = record (starts worker landing err (grown thread sys.context sys.grow s0)) {
      world = u;
    } in
    let loops =
      subst
        (λ (b : State M). main_loop cb rounds true (grown thread sys.context sys.grow b) ≡ ended s1)
        (sym same) ran in
    let (_, _, (final, returned, disposed, stopped)) =
      pcaio-runs thread cb sys threads rounds workers t ts s s1 h g p.idle p.alive p.unlinked
        p.distinct p.tasks p.few
        (scale-done sys.grow address (begun cb sys workers (t ∷ ts) s).workers
          (begun cb sys workers (t ∷ ts) s).pool grows (omega arith))
        loops over.plain.alive in
    let (once, all) = ended-members (length rs) code need (t ∷ ts) p.distinct e in
    (
      final,
      ended_in (length rs) code need (t ∷ ts),
      returned
          ∙ ap (λ (r : Status). some (r, final))
              (scale-done sys.shrink address 0 s1.pool shrinks (omega arith)),
      disposed ∙ freed,
      once,
      all,
      stopped,
    )
