-- ===== src/Worker/Team/Going.antt =====
-- What holds between the steps of several workers.
use Prim.Native.Nat.{bit_and}
use pcaio.Prelude.{
  ℕ, ◌+◌, ◌^◌, ◌≤◌, ◌<◌, ◌≡◌, ◌≢◌, true, false, not, none, some, refl, sym, ap, ◌∙◌, subst, Bool,
  List, [], ◌∷◌, ◌++◌, arith, ◌==◌, Ptr, null, has, length, Tid,
}
use pcaio.QueueT.{Queue}
use pcaio.QueueT.Fifo.{IsQueue}
use pcaio.ListT.Refine.{IsList}
use pcaio.World.{World, task_terminated, task_noschedule}
use pcaio.Task.Life.{release}
use pcaio.Worker.{set_task}
use pcaio.Worker.Team.{active, Phase, idle, runs, back, Slot, at, in_phase, held}
use pcaio.Worker.Team.Count.{tally, active-at, times, times-append, held-at, length-held-at}

-- The task has not ended, and is not to stay out of the queue.
abbrev pub IsReady : (Ptr → ℕ) → Ptr → Type 0
IsReady flags t =
    (not (bit_and (flags t) task_terminated == 0) ≡ false)
    × (not (bit_and (flags t) task_noschedule == 0) ≡ false)

-- The flags of the task that a worker has.
abbrev pub Fits : (Ptr → ℕ) → Phase → Type 0
Fits flags idle = Unit {0}
Fits flags (runs t) = (t ≢ null) × IsReady flags t
Fits flags (back none t) = (t ≢ null) × IsReady flags t
Fits flags (back (some code) t) = (t ≢ null) × (not (bit_and (flags t) task_terminated == 0) ≡ true)

abbrev pub AllFit : (Ptr → ℕ) → List Slot → Type 0
AllFit flags [] = Unit {0}
AllFit flags (s ∷ ss) = Fits flags s.phase × AllFit flags ss

-- At most one task, `ps`, is out of the queue and waits for others: for `pending` tasks of the gather
-- `group`, whose last one schedules it.
abbrev pub Parks : World → (group : Ptr) → (pending : ℕ) → (ps : List Ptr) → Type 0
Parks w group pending [] = pending ≡ 0
Parks w group pending (p ∷ []) =
    (pending ≢ 0)
    × (w.gather_count group ≡ pending)
    × (pending < 2 ^ 16)
    × (w.gather_task group ≡ p)
    × (p ≢ null)
    × (w.terminated p ≡ false)
    × IsReady w.flags p
Parks w group pending (p ∷ q ∷ ps) = ⊥

-- The tasks that are waited for: they are in the queue or with a worker, and have not ended.
abbrev pub pending : (Ptr → Bool) → (xs : List Ptr) → List Slot → ℕ
pending hooked xs slots = tally hooked xs + tally hooked (active slots)

-- The tasks `xs` wait, `zs` are alive, and `es` have ended and are freed, in this order; `ts` are all
-- that there were, `freed` what was free before, and `stack` where their stacks are. A task that is
-- alive waits in the queue, or for others, or one worker has it.
pub record Going (group : Ptr) (hooked : Ptr → Bool) (owner stack : Ptr → Ptr) (freed ts : List Ptr)
    (w : World) (slots : List Slot) (xs ps zs es : List Ptr) : Type 0 where
  pub queue : IsQueue w.taskq xs
  pub alive : IsList w.tasks zs
  pub same : (t : Ptr) → times t zs ≡ times t xs + times t ps + times t (held slots)
  pub all : (t : Ptr) → times t ts ≡ times t zs + times t es
  pub ready : (t : Ptr) → has t xs ≡ true → IsReady w.flags t
  pub fits : AllFit w.flags slots
  pub hooks : (t : Ptr) → w.terminated t ≡ true → w.gather t ≡ group
  pub parks : Parks w group (pending w.terminated xs slots) ps
  pub no_callback : (t : Ptr) → w.callback t ≡ null
  pub hooks_same : w.terminated ≡ hooked
  pub owners : w.gather_task ≡ owner
  pub stacks : w.stack ≡ stack
  pub disposed : w.freed ≡ release stack es freed
  pub room : length xs + length ps + length (held slots) < 2 ^ 64

-- What a task that waits for others depends on.
pub Parks-change :
    (w v : World) (group n m : ℕ) (ps : List Ptr)
    → n ≡ m
    → v.gather_count ≡ w.gather_count
    → v.gather_task ≡ w.gather_task
    → v.terminated ≡ w.terminated
    → ((t : Ptr) → 1 ≤ times t ps → v.flags t ≡ w.flags t)
    → Parks w group n ps
    → Parks v group m ps
Parks-change w v group n m [] e counts tasks hooks flags h = sym e ∙ h
Parks-change w v group n m (p ∷ []) e counts tasks hooks flags h = (
  subst (λ k. k ≢ 0) e h.0,
  ap (λ (f : Ptr → ℕ). f group) counts ∙ h.1 ∙ e,
  subst (λ k. k < 2 ^ 16) e h.2,
  ap (λ (f : Ptr → Ptr). f group) tasks ∙ h.3,
  h.4,
  ap (λ (f : Ptr → Bool). f p) hooks ∙ h.5,
  rw (flags p (ground arith)) h.6,
)
Parks-change w v group n m (p ∷ q ∷ ps) e counts tasks hooks flags h = absurd h

pub AllFit-split :
    (flags : Ptr → ℕ) (ls rs : List Slot) (i : Tid) (p : Phase)
    → AllFit flags (ls ++ (at i p ∷ rs))
    → AllFit flags ls × Fits flags p × AllFit flags rs
AllFit-split flags [] rs i p f = (tt, f.0, f.1)
AllFit-split flags (l ∷ ls) rs i p f =
    let (before, here, behind) = AllFit-split flags ls rs i p f.1 in ((f.0, before), here, behind)

pub AllFit-join :
    (flags : Ptr → ℕ) (ls rs : List Slot) (i : Tid) (p : Phase)
    → AllFit flags ls
    → Fits flags p
    → AllFit flags rs
    → AllFit flags (ls ++ (at i p ∷ rs))
AllFit-join flags [] rs i p before here behind = (here, behind)
AllFit-join flags (l ∷ ls) rs i p before here behind =
    (before.0, AllFit-join flags ls rs i p before.1 here behind)

Fits-change :
    (f g : Ptr → ℕ) (p : Phase)
    → ((t : Ptr) → 1 ≤ times t (in_phase p) → g t ≡ f t)
    → Fits f p
    → Fits g p
Fits-change f g idle same h = tt
Fits-change f g (runs t) same h = (h.0, rw (same t (ground arith)) h.1)
Fits-change f g (back none t) same h = (h.0, rw (same t (ground arith)) h.1)
Fits-change f g (back (some code) t) same h = (h.0, rw (same t (ground arith)) h.1)

-- Only the flags of the tasks that the workers have matter to them.
pub AllFit-change :
    (f g : Ptr → ℕ) (ss : List Slot)
    → ((t : Ptr) → 1 ≤ times t (held ss) → g t ≡ f t)
    → AllFit f ss
    → AllFit g ss
AllFit-change f g [] same h = tt
AllFit-change f g (s ∷ ss) same h = (
  Fits-change f g s.phase
      (λ t l. same t (omega (arith, times-append t (in_phase s.phase) (held ss)))) h.0,
  AllFit-change f g ss (λ t l. same t (omega (arith, times-append t (in_phase s.phase) (held ss))))
      h.1,
)

-- The first step of a worker.
pub takes-Going :
    {group : Ptr} {hooked : Ptr → Bool} {owner stack : Ptr → Ptr} {freed ts : List Ptr} {w : World}
    {xs ps zs es : List Ptr} (ls rs : List Slot) (i : Tid) (err : ℕ) (t : Ptr) (q : Queue)
    → Going group hooked owner stack freed ts w (ls ++ (at i idle ∷ rs)) (t ∷ xs) ps zs es
    → IsQueue q xs
    → t ≢ null
    → Going group hooked owner stack freed ts
        (set_task err i t (record w { taskq = q }))
        (ls ++ (at i (runs t) ∷ rs))
        xs
        ps
        zs
        es
unfolding set_task
takes-Going {w} {xs} {ps} ls rs i err t q g left n =
    let (before, here, behind) = AllFit-split w.flags ls rs i idle g.fits in
    record {
      queue = left;
      alive = g.alive;
      same = λ a. omega (arith, g.same a, held-at a ls rs i idle, held-at a ls rs i (runs t));
      all = g.all;
      ready = λ a h. g.ready a (ground arith);
      fits = AllFit-join w.flags ls rs i (runs t) before (n, g.ready t (ground arith)) behind;
      hooks = g.hooks;
      parks =
          Parks-change w (set_task err i t (record w { taskq = q })) _ _ _ ps
            (omega
              (arith, active-at w.terminated ls rs i idle, active-at w.terminated ls rs i (runs t)))
            refl refl refl (λ a l. refl) g.parks;
      no_callback = g.no_callback;
      hooks_same = g.hooks_same;
      owners = g.owners;
      stacks = g.stacks;
      disposed = g.disposed;
      room = omega (arith, g.room, length-held-at ls rs i idle, length-held-at ls rs i (runs t));
    }
