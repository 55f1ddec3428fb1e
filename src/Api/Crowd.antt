-- ===== src/Api/Crowd.antt =====
-- A call of `pcaio` (pcaio/pcaio.c) with several workers, whose steps come in any order.
pub mod Start
mod Tests
use pcaio.Prelude.{
  null, has, ◌==◌, update, Bool, ℕ, ◌*◌, ◌^◌, ◌<◌, ◌≡◌, refl, sym, ap, ◌∙◌, subst, ◌≢◌, ◌⊎◌, inl,
  inr, true, false, Option, none, some, List, [], ◌∷◌, map, arith, Ptr, Status, done, failed, Tid,
  length, if◌then◌else◌,
}
use pcaio.ListT.Refine.{IsList}
use pcaio.Task.Life.{release}
use pcaio.Threadpool
use pcaio.Threadpool.Promise.{Grants, scale-done}
use pcaio.World.{World}
use pcaio.Worker.{set_context}
use pcaio.Worker.Needs.{total, IsWorking, set_context-IsWorking}
use pcaio.Worker.Team.{Team, Slot, at, idle, AllIdle, steps_left}
use pcaio.Threadlocal
use pcaio.Worker.Team.Landing.{threads, AllLand}
use pcaio.Worker.Team.Count.{times}
use pcaio.Worker.Team.Busy.{CanStep, AllIdle-owed}
use pcaio.Worker.Team.Finish.{IsDone, begin-Going}
use pcaio.Master.{State, Callbacks, timeout_long, main_loop, ended, running, goes_on, address}
use pcaio.Master.Reset.{Harmless, started, init-started}
use pcaio.Master.Whole.{grown}
use pcaio.Master.Work.{alive_count}
use pcaio.Master.Team.{sees, Seen, LoopsWith, main_loop-bare, main_loop-sees}
use pcaio.Api.Crowd.Start.{
  Starter, key_all, start_all, all_idle, all_idle-AllIdle, all_idle_some, AllStart, key_all-AllLand,
  team_at,
}
use pcaio.Api.Run.{Answers, pcaio_run, queue_all}
use pcaio.Api.Whole.{begun, Willing, pcaio_run-waits, pcaio-runs}
use pcaio.Api.Complete.{IsPrepared, grown-IsWorking}

-- The start of the workers keeps what stands in the queue and in the list, the stacks, and what is
-- freed.
record Started (w v : World) (xs zs : List Ptr) : Type 0 where
  works : IsWorking v xs zs
  stack : v.stack ≡ w.stack
  freed : v.freed ≡ w.freed

key_all-Started :
    (rs : List Starter) (w : World) {xs zs : List Ptr}
    → IsWorking w xs zs
    → Started w (key_all rs w) xs zs
unfolding set_context
key_all-Started [] w p = record { works = p; stack = refl; freed = refl }
key_all-Started (r ∷ rs) w p =
    let rest =
      key_all-Started rs (set_context r.err r.thread r.landing w)
        (set_context-IsWorking r.err r.thread r.landing w p) in
    record { works = rest.works; stack = rest.stack; freed = rest.freed }

-- The main loop from the start of the workers on.
loop_from_start :
    {M : Type 0} (cb : Callbacks M) (code need : Ptr → ℕ) (rs : List Starter) (ws : List World)
    {n : ℕ} (c : Team) (x : Ptr) (xs zs : List Ptr) (s : State M)
    → ((v : State M) → cb.sleep timeout_long v ≡ v)
    → s.modulescount ≡ 0
    → s.cancel ≡ false
    → rs ≢ []
    → AllStart rs
    → IsWorking s.world (x ∷ xs) zs
    → Seen code n (team_at need rs s) ws c
    → LoopsWith code s.world.stack s.world.freed
        (x ∷ xs)
        n
        (3 * total need (x ∷ xs))
        c
        (start_all rs s)
        (main_loop cb (start_all rs ∷ map sees ws) true s)
unfolding total
loop_from_start cb code need rs ws {n} c x xs zs s sleeps bare runs some_worker start p seen =
    let k = key_all-Started rs s.world p in
    let g =
      begin-Going (key_all rs s.world) (all_idle rs) (x ∷ xs) zs k.works (all_idle-AllIdle rs) in
    let on : goes_on (start_all rs s) ≡ true = ground (arith, alive_count k.works) in
    let first = main_loop-bare cb (start_all rs) (map sees ws) true s bare sleeps in
    let loops : (Ptr → Ptr) → List Ptr → Type 0 = λ stack freed.
      LoopsWith code stack freed (x ∷ xs) n (3 * total need (x ∷ xs)) c (start_all rs s)
        (main_loop cb (map sees ws) false (start_all rs s)) in
    let size : steps_left need (all_idle rs) (x ∷ xs) [] ≡ 3 * total need (x ∷ xs) =
      omega (arith, AllIdle-owed need (all_idle rs) (all_idle-AllIdle rs)) in
    let rest =
      main_loop-sees cb sleeps code false (start_all rs s) seen bare runs
        (all_idle_some rs some_worker) g
        (key_all-AllLand (key_all rs s.world).task_key.value rs s.world start) in
    subst
      (λ l.
        LoopsWith code s.world.stack s.world.freed (x ∷ xs) n (3 * total need (x ∷ xs)) c
          (start_all rs s) l)
      (sym (first ∙ rw on refl))
      (subst (λ f. loops f s.world.freed) k.stack
        (subst (λ f. loops (key_all rs s.world).stack f) k.freed
          (subst
            (λ steps.
              LoopsWith code (key_all rs s.world).stack (key_all rs s.world).freed (x ∷ xs) n steps
                c (start_all rs s) (main_loop cb (map sees ws) false (start_all rs s)))
            size rest)))

-- A whole run with several workers. A program without modules makes the tasks `t ∷ ts`, and calls
-- `pcaio` with them; the system grants everything, some workers start, at least one, which are
-- different threads and store the address of their context, and run the tasks, of which each gives way
-- as often as `need` says and then returns; where a worker stores its task, `pthread_setspecific`
-- succeeds; nothing else happens, and no signal comes. In whatever order the workers take their steps,
-- and however many they take before each time that the main thread looks: either `pcaio` has not
-- returned, fewer than three steps were taken for each turn that the tasks take together, and some
-- worker can take a further one; or it returns 0, every task was freed with its stack, once, and the library does not run any more.
pub pcaio_crowd :
    {M : Type 0} (thread : Tid) (cb : Callbacks M) (sys : Answers) (threads : ℕ → Tid)
    (rs : List Starter) (ws : List World) {n : ℕ} (c : Team) (code need : Ptr → ℕ) (workers : ℕ)
    (t : Ptr) (ts zs : List Ptr) (s : State M)
    → Harmless cb
    → ((v : State M) → cb.sleep timeout_long v ≡ v)
    → Willing sys threads
    → Grants sys.grow
    → Grants sys.shrink
    → IsPrepared s (t ∷ ts) zs
    → rs ≢ []
    → AllStart rs
    → Seen code n
        (team_at need rs (grown thread sys.context sys.grow (begun cb sys workers (t ∷ ts) s)))
        ws
        c
    → ((pcaio_run thread cb sys (start_all rs ∷ map sees ws) workers (t ∷ ts) s ≡ none)
        × (n < 3 * total need (t ∷ ts))
        × CanStep code c)
      ⊎ ((final : State M) × (order : List Ptr) × (pcaio_run thread cb sys
              (start_all rs ∷ map sees ws)
              workers
              (t ∷ ts)
              s
            ≡ some (done, final))
          × (final.world.freed ≡ release s.world.stack order s.world.freed)
          × ((a : Ptr) → times a order ≡ times a (t ∷ ts))
          × (final.workers ≡ 0))
unfolding grown release
pcaio_crowd {M} thread cb sys threads rs ws {n} c code need workers t ts zs s h sleeps g grows
      shrinks p some_worker start seen =
    let (v, made) = init-started cb sys.setup threads workers s h g.setup p.idle in
    let s0 = (queue_all (t ∷ ts) (started threads workers v s)).1 in
    let same : begun cb sys workers (t ∷ ts) s ≡ s0 =
      ap (λ (o : Status × State M). (queue_all (t ∷ ts) o.1).1) made in
    let rounds : List (State M → State M) = start_all rs ∷ map sees ws in
    let grow : State M → State M = λ b. grown thread sys.context sys.grow b in
    let scaled =
      scale-done sys.grow address (begun cb sys workers (t ∷ ts) s).workers
        (begun cb sys workers (t ∷ ts) s).pool grows (omega arith) in
    let loops =
      loop_from_start cb code need rs ws c t ts zs (grow s0) sleeps p.no_modules refl some_worker
        start (grown-IsWorking thread sys.context workers threads sys.grow v s t ts zs p)
        (subst (λ b. Seen code n (team_at need rs (grow b)) ws c) same seen) in
    let back =
      subst
        (λ b.
          LoopsWith code s.world.stack s.world.freed (t ∷ ts) n (3 * total need (t ∷ ts)) c
            (start_all rs (grow s0)) (main_loop cb rounds true (grow b)))
        (sym same) loops in
    elim back [
      | inl (u, runs, few, can) ↦ inl (
        pcaio_run-waits thread cb sys threads rounds workers t ts s u h g p.idle p.alive p.unlinked
            p.distinct p.tasks p.few scaled runs,
        few,
        can,
      )
      | inr (w, slots, ends, d) ↦
          let s1 : State M = record (start_all rs (grow s0)) { world = w } in
          let (_, _, (final, returned, disposed, stopped)) =
            pcaio-runs thread cb sys threads rounds workers t ts s s1 h g p.idle p.alive p.unlinked
              p.distinct p.tasks p.few scaled ends d.alive in
          inr (
            final,
            d.order,
            returned
                ∙ ap (λ (r : Status). some (r, final))
                    (scale-done sys.shrink address 0 s1.pool shrinks (omega arith)),
            disposed ∙ d.disposed,
            d.once,
            stopped,
          )
    ]
