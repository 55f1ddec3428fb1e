-- ===== src/Worker/Team/Finish.antt =====
-- Several workers run their tasks to the end, in whatever order they take their steps.
use pcaio.Prelude.{
  Bool, false≢true, null, ℕ, zero, suc, ◌*◌, ◌≤◌, ◌<◌, ◌≡◌, refl, sym, ap, subst, ◌∙◌, ◌≢◌, ◌⊎◌,
  inl, inr, List, [], ◌∷◌, ◌++◌, arith, Ptr, length,
}
use pcaio.QueueT.Fifo.{IsQueue}
use pcaio.ListT.Refine.{IsList}
use pcaio.World.{World}
use pcaio.Task.Life.{release}
use pcaio.Worker.Needs.{total, IsWorking}
use pcaio.Worker.Team.{
  Slot, Team, takes, comes, settles, Steps, stay, go, held, AllIdle, steps_left,
}
use pcaio.Worker.Team.Count.{tally_none, times, times_of_has, nil_of_times}
use pcaio.Worker.Team.Going.{Going}
use pcaio.Worker.Team.Landing.{Landed}
use pcaio.Worker.Team.Trace.{Steps-Going}
use pcaio.Worker.Team.Busy.{
  AllIdle-held, AllIdle-AllFit, AllIdle-owed, AllIdle-pending, Busy-cases, Busy-owed, Busy-holds,
  CanStep, goes_further,
}

-- All the tasks `ts` have ended: no worker has one, none waits, none is alive, and each was freed, as
-- often as it stood in `ts`, with its stack, in the order of `order`.
pub record IsDone (stack : Ptr → Ptr) (freed ts : List Ptr) (w : World) (slots : List Slot)
    : Type 0 where
  pub order : List Ptr
  pub resting : AllIdle slots
  pub queue : IsQueue w.taskq []
  pub alive : IsList w.tasks []
  pub disposed : w.freed ≡ release stack order freed
  pub once : (t : Ptr) → times t order ≡ times t ts

pub over-IsDone :
    {group : Ptr} {hooked : Ptr → Bool} {owner stack : Ptr → Ptr} {freed ts : List Ptr} {w : World}
    {ss : List Slot} {xs ps zs es : List Ptr} (need : Ptr → ℕ)
    → Going group hooked owner stack freed ts w ss xs ps zs es
    → steps_left need ss xs ps ≡ 0
    → IsDone stack freed ts w ss
unfolding total
over-IsDone {xs = x ∷ xs} need g over = absurd (omega arith)
over-IsDone {xs = []} {ps = p ∷ ps} need g over = absurd (omega arith)
over-IsDone {w} {ss} {xs = []} {ps = []} {zs} {es} need g over = elim (Busy-cases ss) [
  | inl h ↦
      let nothing : zs ≡ [] =
        nil_of_times zs (λ a. omega (arith, g.same a, ap (times a) (AllIdle-held ss h))) in
      record {
        order = es;
        resting = h;
        queue = g.queue;
        alive = subst (IsList w.tasks) nothing g.alive;
        disposed = g.disposed;
        once = λ a. omega (arith, g.all a, ap (times a) nothing);
      }
  | inr b ↦ absurd (omega (arith, Busy-owed need b))
]

-- No step is left once no task is alive.
pub empty-over :
    {group : Ptr} {hooked : Ptr → Bool} {owner stack : Ptr → Ptr} {freed ts : List Ptr} {w : World}
    {ss : List Slot} {xs ps es : List Ptr} (need : Ptr → ℕ)
    → Going group hooked owner stack freed ts w ss xs ps [] es
    → steps_left need ss xs ps ≡ 0
unfolding total
empty-over {xs = x ∷ xs} need g = absurd (let e = g.same x in ground arith)
empty-over {xs = []} {ps = p ∷ ps} need g = absurd (let e = g.same p in ground arith)
empty-over {ss} {xs = []} {ps = []} need g = elim (Busy-cases ss) [
  | inl h ↦ omega (arith, AllIdle-owed need ss h)
  | inr b ↦ absurd (Busy-holds b (λ a. omega (arith, g.same a)))
]

-- The workers before they take the first task, when no task waits for others.
pub begin-Going :
    (w : World) (ss : List Slot) (xs zs : List Ptr)
    → IsWorking w xs zs
    → AllIdle ss
    → Going null w.terminated w.gather_task w.stack w.freed xs w ss xs [] zs []
unfolding release
begin-Going w ss xs zs p h =
    let equal : (a : Ptr) → times a xs ≡ times a zs =
      λ a. times_of_has a xs zs p.plain.queue.distinct p.plain.alive.distinct (sym (p.same a)) in
    let nobody : (a : Ptr) → times a (held ss) ≡ 0 = λ a. ap (times a) (AllIdle-held ss h) in
    let size : length (held ss) ≡ 0 = ap length (AllIdle-held ss h) in
    record {
      queue = p.plain.queue;
      alive = p.plain.alive;
      same = λ a. omega (arith, equal a, nobody a);
      all = λ a. omega (arith, equal a);
      ready = λ a m. (p.plain.lives a m, p.plain.free_to_run a m);
      fits = AllIdle-AllFit w.flags ss h;
      hooks = λ a hook. absurd (false≢true (sym (p.plain.no_hook a) ∙ hook));
      parks =
          omega
            (arith, tally_none w.terminated xs p.plain.no_hook, AllIdle-pending w.terminated ss h);
      no_callback = p.plain.no_callback;
      hooks_same = refl;
      owners = refl;
      stacks = refl;
      disposed = refl;
      room = omega (arith, p.plain.queue.small);
    }

cut_nonempty : (ls : List Slot) (s : Slot) (rs : List Slot) → (ls ++ (s ∷ rs)) ≢ []
cut_nonempty [] s rs e = cc
cut_nonempty (l ∷ ls) s rs e = cc

pub none_or_more : (n : ℕ) → (n ≡ 0) ⊎ (1 ≤ n)
none_or_more zero = inl refl
none_or_more (suc n) = inr (omega arith)

pub Steps-nonempty :
    {code : Ptr → ℕ} {n : ℕ} {c c' : Team} → Steps code n c c' → c.slots ≢ [] → c'.slots ≢ []
Steps-nonempty stay h = h
Steps-nonempty (go (takes ls rs i t q e took) rest) h = Steps-nonempty rest (cut_nonempty ls _ rs)
Steps-nonempty (go (comes ls rs i t v e out) rest) h = Steps-nonempty rest (cut_nonempty ls _ rs)
Steps-nonempty (go (settles ls rs i err o t v e s) rest) h =
    Steps-nonempty rest (cut_nonempty ls _ rs)

-- Any number of workers, at least one, which are different threads, of which each has a context to
-- land in, begin with the tasks `xs` waiting, which are all that are alive, and of which each gives way
-- as often as `need` says and then returns. Where a worker stores its task, `pthread_setspecific`
-- succeeds. In whatever order the workers take their steps, they can take exactly three steps for each
-- turn that the tasks take together. Before that some worker can always take a step; and then all
-- workers wait, no task is left, and each was freed with its stack, once.
pub team_finishes :
    (code : Ptr → ℕ) {n : ℕ} (c : Team) {c' : Team} (xs zs : List Ptr)
    → c.slots ≢ []
    → AllIdle c.slots
    → Landed c
    → IsWorking c.world xs zs
    → Steps code n c c'
    → ((n < 3 * total c.need xs) × CanStep code c')
      ⊎ ((n ≡ 3 * total c.need xs) × IsDone c.world.stack c.world.freed xs c'.world c'.slots)
unfolding total
team_finishes code {n} c {c'} xs zs some_worker h land p steps =
    let (xs', ps', zs', es', g, left, land') =
      Steps-Going steps land (begin-Going c.world c.slots xs zs p h) in
    let nobody : total c.need [] ≡ 0 = refl in
    let start = AllIdle-owed c.need c.slots h in
    elim (none_or_more (steps_left c'.need c'.slots xs' ps')) [
      | inl over ↦ inr (omega (arith, left, start), over-IsDone c'.need g over)
      | inr rest ↦ inl (
        omega (arith, left, start),
        goes_further code c'.need g land' (Steps-nonempty steps some_worker) rest,
      )
    ]
