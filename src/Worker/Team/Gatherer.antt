-- ===== src/Worker/Team/Gatherer.antt =====
-- A task that calls `pcaio_gatherA` (pcaio/gather.c), the worker that settles it, and then several
-- workers.
use Prim.Native.Nat.{bit_and, bit_or}
use pcaio.Prelude.{
  ℕ, ◌+◌, ◌*◌, ◌^◌, ◌<◌, ◌≡◌, sym, ap, subst, ◌∙◌, ◌≢◌, ◌⊎◌, inl, inr, true, false, not, List, [],
  ◌∷◌, ◌++◌, arith, ◌==◌, Ptr, null, Tid, update, has, length, Bool-cases,
}
use pcaio.Prelude.Bits.{bit_and-flag, flag, flag-bit_or, flag-lt}
use pcaio.ListT.Refine.{IsList}
use pcaio.World.{World, task_terminated, task_noschedule}
use pcaio.Relax.{self}
use pcaio.Gather.Start.{Arranged}
use pcaio.Worker.{running, set_task, settle, without_noschedule}
use pcaio.Worker.Turn.{settle-held, without_noschedule-flags}
use pcaio.Worker.Moves.{world_in}
use pcaio.Worker.Needs.{total}
use pcaio.Worker.Team.{Slot, Team, Steps, AllIdle}
use pcaio.Worker.Team.Going.{IsReady}
use pcaio.Worker.Team.Landing.{AllLand}
use pcaio.Worker.Team.Busy.{CanStep}
use pcaio.Worker.Team.Finish.{IsDone}
use pcaio.Worker.Team.Group.{IsGathering, IsPatient, gather_finishes}

-- The task `parent` runs and is about to wait for the tasks `ts`, which are some but fewer than
-- 2 ^ 16; the tasks `xs` are in the queue, and no others are alive. None has ended, is held, or has a
-- hook or a callback.
pub record CanGather (w : World) (parent : Ptr) (ts xs zs : List Ptr) : Type 0 where
  pub alive : IsList w.tasks zs
  pub same : (t : Ptr) → has t zs ≡ has t (parent ∷ (xs ++ ts))
  pub apart : has parent (xs ++ ts) ≡ false
  pub live : parent ≢ null
  pub some : ts ≢ []
  pub small : length ts < 2 ^ 16
  pub room : length (xs ++ ts) + 1 < 2 ^ 64
  pub ready : (t : Ptr) → has t (parent ∷ (xs ++ ts)) ≡ true → IsReady w.flags t
  pub no_hook : (t : Ptr) → w.terminated t ≡ false
  pub no_callback : (t : Ptr) → w.callback t ≡ null

-- The flag to stay out of the queue, set and cleared, leaves the one of a task that has ended.
held_lem :
    (f : ℕ)
    → (bit_and (bit_or f task_noschedule) task_noschedule ≡ task_noschedule)
      × (bit_and (bit_or f task_noschedule) task_terminated ≡ bit_and f task_terminated)
unfolding flag
held_lem f = (
  bit_and-flag 1 (bit_or f 2) ∙ omega (arith, flag-bit_or 1 f 2, flag-lt 1 f),
  bit_and-flag 0 (bit_or f 2) ∙ omega (arith, flag-bit_or 0 f 2, bit_and-flag 0 f),
)

-- The flags of the task that waits, when `pcaio_gatherA` has set the flag and when the worker has
-- cleared it.
waits-flags :
    (f : ℕ)
    → not (bit_and f task_terminated == 0) ≡ false
    → (not (bit_and (bit_or f task_noschedule) task_terminated == 0) ≡ false)
      × (not (bit_and (bit_or f task_noschedule) task_noschedule == 0) ≡ true)
      × (not (bit_and (without_noschedule (bit_or f task_noschedule)) task_terminated == 0) ≡ false)
      × (not (bit_and (without_noschedule (bit_or f task_noschedule)) task_noschedule == 0) ≡ false)
waits-flags f alive =
    let (set, kept) = held_lem f in
    let (cleared, kept_still) = without_noschedule-flags (bit_or f task_noschedule) in
    (ground arith, ground arith, ground arith, ground arith)

-- The worker in `thread` forgets the task and keeps it out of the queue.
abbrev parked : (err : ℕ) → Tid → (parent : Ptr) → World → World
parked err thread parent v =
    let u = set_task err thread null v in
    record u { flags = update u.flags parent (without_noschedule (u.flags parent)) }

module _ {w v : World} {g : Ptr} {thread : Tid} {ts xs zs : List Ptr} (err : ℕ)
    (a : Arranged g thread ts xs w v) (c : CanGather w (self thread w) ts xs zs) where
  parent_flags : v.flags (self thread w) ≡ bit_or (w.flags (self thread w)) task_noschedule
  parent_flags = ground (arith, ap (λ (f : Ptr → ℕ). f (self thread w)) a.flags)

  other_flags : (t : Ptr) → (t == self thread w) ≡ false → v.flags t ≡ w.flags t
  other_flags t other = ground (arith, ap (λ (f : Ptr → ℕ). f t) a.flags)

  parks-settle :
      settle (self thread w) (set_task err thread null v)
      ≡ running (parked err thread (self thread w) v)
  unfolding set_task
  parks-settle =
      let (lives, held, _, _) =
        waits-flags (w.flags (self thread w)) (c.ready (self thread w) (ground arith)).0 in
      settle-held (self thread w) (set_task err thread null v) (rw parent_flags lives)
        (rw parent_flags held)

  parked-IsReady :
      (t : Ptr)
      → has t (self thread w ∷ (xs ++ ts)) ≡ true
      → IsReady (parked err thread (self thread w) v).flags t
  unfolding set_task
  parked-IsReady t h = elim (Bool-cases (t == self thread w)) [
    | inl same ↦
        let now : (parked err thread (self thread w) v).flags t
            ≡ without_noschedule (bit_or (w.flags (self thread w)) task_noschedule) =
          ground (arith, parent_flags) in
        let (_, _, lives, free) =
          waits-flags (w.flags (self thread w)) (c.ready (self thread w) (ground arith)).0 in
        (rw now lives, rw now free)
    | inr other ↦
        let now : (parked err thread (self thread w) v).flags t ≡ w.flags t =
          ground (arith, other_flags t other) in
        rw now (c.ready t h)
  ]

  parked-IsGathering : IsGathering (parked err thread (self thread w) v) g (self thread w) ts xs zs
  unfolding set_task
  parked-IsGathering = record {
    waits = record {
      count = a.waits.count;
      owner = a.waits.owner;
      alive = a.waits.alive;
      queue = a.waits.queue;
    };
    hooked = λ t. ground (arith, a.hooked t, c.no_hook t);
    all_in = a.all_in;
    some = c.some;
    small = c.small;
    live = c.live;
    apart = c.apart;
    alive = subst (λ l. IsList l zs) (sym a.tasks) c.alive;
    same = c.same;
    lives = λ t h. (parked-IsReady t h).0;
    free_to_run = λ t h. (parked-IsReady t h).1;
    no_callback = λ t. ap (λ (f : Ptr → Ptr). f t) a.callback ∙ c.no_callback t;
    room = c.room;
  }

-- A task runs in `thread` and calls `pcaio_gatherA` for the tasks `ts`, which is at the point where it
-- has left its context, as `Arranged` says; no other task has ended, is held, or has a hook or a
-- callback. Its worker settles it, and then workers, at least one, which are different threads, of which
-- each has a context to land in, run what is there; nothing else happens, each task gives way as often
-- as `need` says and then returns, and `pthread_setspecific` succeeds where a worker stores its task. In
-- whatever order they take their steps: the task is not queued or run before all of `ts` have ended; and the workers can
-- take exactly three steps for each turn of these tasks, those of the task that waits included,
-- before which they are never stuck. Then no task is left, and each was freed with its stack, once.
pub gather_completes :
    (code need : Ptr → ℕ) {n : ℕ} (slots : List Slot) {c' : Team} (g : Ptr) (thread : Tid) (err : ℕ)
    (ts xs zs : List Ptr) (w v u : World)
    → Arranged g thread ts xs w v
    → CanGather w (self thread w) ts xs zs
    → settle (self thread w) (set_task err thread null v) ≡ running u
    → slots ≢ []
    → AllIdle slots
    → AllLand u.task_key.value u.context_key.value slots
    → Steps code n (record { world = u; need = need; slots = slots }) c'
    → let all = self thread w ∷ (xs ++ ts) in
      IsPatient (self thread w) ts c'
      × (((n < 3 * total need all) × CanStep code c')
          ⊎ ((n ≡ 3 * total need all) × IsDone u.stack u.freed all c'.world c'.slots))
gather_completes code need {n} slots {c'} g thread err ts xs zs w v u a c settled some_worker idle
      land steps =
    gather_finishes code (record { world = u; need = need; slots = slots }) g (self thread w) ts xs
      zs some_worker idle
      (subst (λ o. IsGathering o g (self thread w) ts xs zs)
        (ap world_in (sym (parks-settle err a c) ∙ settled)) (parked-IsGathering err a c))
      land steps
