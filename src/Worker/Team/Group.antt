-- ===== src/Worker/Team/Group.antt =====
-- A group of tasks that another task waits for (pcaio/gather.c), run by several workers.
use pcaio.Prelude.{
  ℕ, ◌+◌, ◌*◌, ◌^◌, ◌<◌, ◌≡◌, refl, sym, ap, subst, ◌∙◌, ◌≢◌, ◌⊎◌, inl, inr, Bool, true, false,
  false≢true, ◌&&◌, List, [], ◌∷◌, ◌++◌, arith, Ptr, null, has, has-append, length, Distinct,
  Distinct-apart, Bool-cases, ◌==◌,
}
use pcaio.QueueT.Fifo.{IsQueue}
use pcaio.ListT.Refine.{IsList}
use pcaio.World.{World}
use pcaio.Task.Life.{release}
use pcaio.Gather.Count.{AllIn, Waits}
use pcaio.Worker.Turn.{has_ended, is_held}
use pcaio.Worker.Needs.{total}
use pcaio.Worker.Team.{Slot, Team, Steps, held, active, AllIdle, steps_left}
use pcaio.Worker.Team.Count.{
  Distinct-times, times, times_of_has, has_none, tally, tally-append, tally_zero,
}
use pcaio.Worker.Team.Going.{pending, Going}
use pcaio.Worker.Team.Landing.{Landed}
use pcaio.Worker.Team.Trace.{Steps-Going}
use pcaio.Worker.Team.Busy.{
  AllIdle-held, AllIdle-AllFit, AllIdle-owed, AllIdle-pending, CanStep, goes_further,
}
use pcaio.Worker.Team.Finish.{IsDone, over-IsDone, none_or_more, Steps-nonempty}

-- The task `parent` waits for the group `ts` by the gather `g`, as `pcaio_gatherA` arranges it: the
-- group stands in the queue behind `xs`, its members and no others have the hook, and no other task
-- is alive.
pub record IsGathering (w : World) (g parent : Ptr) (ts xs zs : List Ptr) : Type 0 where
  pub waits : Waits w g parent (length ts) (xs ++ ts)
  pub hooked : (t : Ptr) → w.terminated t ≡ has t ts
  pub all_in : AllIn w.gather g ts
  pub some : ts ≢ []
  pub small : length ts < 2 ^ 16
  pub live : parent ≢ null
  pub apart : has parent (xs ++ ts) ≡ false
  pub alive : IsList w.tasks zs
  pub same : (t : Ptr) → has t zs ≡ has t (parent ∷ (xs ++ ts))
  pub lives : (t : Ptr) → has t (parent ∷ (xs ++ ts)) ≡ true → has_ended w t ≡ false
  pub free_to_run : (t : Ptr) → has t (parent ∷ (xs ++ ts)) ≡ true → is_held w t ≡ false
  pub no_callback : (t : Ptr) → w.callback t ≡ null
  pub room : length (xs ++ ts) + 1 < 2 ^ 64

AllIn-member :
    (gather : Ptr → Ptr) (g t : Ptr) (ts : List Ptr)
    → AllIn gather g ts
    → has t ts ≡ true
    → gather t ≡ g
AllIn-member gather g t [] all h = absurd (false≢true h)
AllIn-member gather g t (u ∷ us) all h = elim (Bool-cases (t == u)) [
  | inl same ↦ (let e : t ≡ u = ground arith in ap gather e ∙ all.0)
  | inr other ↦ AllIn-member gather g t us all.1 (ground arith)
]

tally_all :
    (f : Ptr → Bool) (us : List Ptr)
    → ((a : Ptr) → has a us ≡ true → f a ≡ true)
    → tally f us ≡ length us
tally_all f [] h = refl
tally_all f (u ∷ us) h =
    let here = h u (ground arith) in
    let rest = tally_all f us (λ a m. h a (ground arith)) in ground arith

tally_outside :
    (f : Ptr → Bool) (us : List Ptr) → ((a : Ptr) → has a us ≡ true → f a ≡ false) → tally f us ≡ 0
tally_outside f [] h = refl
tally_outside f (u ∷ us) h =
    let here = h u (ground arith) in
    let rest = tally_outside f us (λ a m. h a (ground arith)) in ground arith

size_some : (ts : List Ptr) → ts ≢ [] → length ts ≢ 0
size_some [] n e = n refl
size_some (t ∷ ts) n e = omega arith

-- The group is what is waited for.
group_size :
    {w : World} {g parent : Ptr} {ts xs zs : List Ptr}
    → IsGathering w g parent ts xs zs
    → tally w.terminated (xs ++ ts) ≡ length ts
group_size {w} {ts} {xs} h =
    let d = h.waits.queue.distinct in
    omega (
      arith,
      tally-append w.terminated xs ts,
      tally_all w.terminated ts (λ a m. h.hooked a ∙ m),
      tally_outside w.terminated xs (λ a m. h.hooked a ∙ Distinct-apart a xs ts d m),
    )

gathering-Going :
    {w : World} {g parent : Ptr} {ts xs zs : List Ptr} (ss : List Slot)
    → IsGathering w g parent ts xs zs
    → AllIdle ss
    → Going g w.terminated w.gather_task w.stack w.freed
        (parent ∷ (xs ++ ts))
        w
        ss
        (xs ++ ts)
        (parent ∷ [])
        zs
        []
unfolding release
gathering-Going {w} {g} {parent} {ts} {xs} {zs} ss h idle =
    let distinct : Distinct (parent ∷ (xs ++ ts)) = (h.apart, h.waits.queue.distinct) in
    let equal : (a : Ptr) → times a (parent ∷ (xs ++ ts)) ≡ times a zs =
      λ a. times_of_has a (parent ∷ (xs ++ ts)) zs distinct h.alive.distinct (sym (h.same a)) in
    let nobody : (a : Ptr) → times a (held ss) ≡ 0 = λ a. ap (times a) (AllIdle-held ss idle) in
    let size : length (held ss) ≡ 0 = ap length (AllIdle-held ss idle) in
    let waited : pending w.terminated (xs ++ ts) ss ≡ length ts =
      omega (arith, group_size h, AllIdle-pending w.terminated ss idle) in
    let here : has parent (parent ∷ (xs ++ ts)) ≡ true = ground arith in
    record {
      queue = h.waits.queue;
      alive = h.alive;
      same = λ a. omega (arith, equal a, nobody a);
      all = λ a. omega (arith, equal a);
      ready = λ a m. (h.lives a (ground arith), h.free_to_run a (ground arith));
      fits = AllIdle-AllFit w.flags ss idle;
      hooks = λ a hook. AllIn-member w.gather g a ts h.all_in (sym (h.hooked a) ∙ hook);
      parks = (
        subst (λ k. k ≢ 0) (sym waited) (size_some ts h.some),
        h.waits.count ∙ sym waited,
        subst (λ k. k < 2 ^ 16) (sym waited) h.small,
        h.waits.owner,
        h.live,
        h.hooked parent ∙ ground (arith, has-append parent xs ts, h.apart),
        (h.lives parent here, h.free_to_run parent here),
      );
      no_callback = h.no_callback;
      hooks_same = refl;
      owners = refl;
      stacks = refl;
      disposed = refl;
      room = omega (arith, h.room);
    }

-- The task `parent` is in the queue, or with a worker, only when no task of the group `ts` is left that
-- has not ended.
abbrev pub IsPatient : (parent : Ptr) → (ts : List Ptr) → Team → Type 0
IsPatient parent ts c =
    (ys : List Ptr) × IsQueue c.world.taskq ys
    × (((has parent ys ≡ false) × (has parent (held c.slots) ≡ false))
        ⊎ ((t : Ptr) → (has t ts && has t (ys ++ active c.slots)) ≡ false))

Going-IsPatient :
    {group parent : Ptr} {owner stack : Ptr → Ptr} {freed os xs ps zs es : List Ptr} (ts : List Ptr)
    (c : Team) (hooked : Ptr → Bool)
    → Going group hooked owner stack freed os c.world c.slots xs ps zs es
    → owner group ≡ parent
    → ((t : Ptr) → hooked t ≡ has t ts)
    → IsPatient parent ts c
Going-IsPatient {xs} {ps = []} ts c hooked g named members = (
  xs,
  g.queue,
  inr (λ t. elim (Bool-cases (has t ts)) [
    | inl inside ↦
        let hook : c.world.terminated t ≡ true =
          ap (λ (f : Ptr → Bool). f t) g.hooks_same ∙ members t ∙ inside in
        let left = tally-append c.world.terminated xs (active c.slots) in
        let gone =
          tally_zero c.world.terminated t (xs ++ active c.slots) (omega (arith, left, g.parks))
            hook in
        ground arith
    | inr outside ↦ ground arith
  ]),
)
Going-IsPatient {group} {parent} {xs} {ps = p ∷ []} {zs} ts c hooked g named members =
    let is : p ≡ parent = sym g.parks.3 ∙ ap (λ (f : Ptr → Ptr). f group) g.owners ∙ named in
    let here : times parent (p ∷ []) ≡ 1 = ground arith in
    let most = Distinct-times parent zs g.alive.distinct in
    (
      xs,
      g.queue,
      inl (
        has_none parent xs (omega (arith, g.same parent)),
        has_none parent (held c.slots) (omega (arith, g.same parent)),
      ),
    )
Going-IsPatient {ps = p ∷ q ∷ ps} ts c hooked g named members = absurd g.parks

-- A task waits for a group, as `pcaio_gatherA` arranges it, and workers, at least one, which are
-- different threads, of which each has a context to land in, begin to run what is in the queue: the
-- group, and some other tasks; nothing else happens. Each task gives way as often as `need` says and then
-- returns. In whatever order the workers take their steps: the task that waits is never queued or run
-- before all of the group have ended; and they can take exactly three steps for each turn that all these
-- tasks take together, those of the task that waits included, before which they are never stuck. Then
-- no task is left, and each was freed with its stack, once.
pub gather_finishes :
    (code : Ptr → ℕ) {n : ℕ} (c : Team) {c' : Team} (g parent : Ptr) (ts xs zs : List Ptr)
    → c.slots ≢ []
    → AllIdle c.slots
    → IsGathering c.world g parent ts xs zs
    → Landed c
    → Steps code n c c'
    → IsPatient parent ts c'
      × (((n < 3 * total c.need (parent ∷ (xs ++ ts))) × CanStep code c')
          ⊎ ((n ≡ 3 * total c.need (parent ∷ (xs ++ ts)))
              × IsDone c.world.stack c.world.freed (parent ∷ (xs ++ ts)) c'.world c'.slots))
unfolding total
gather_finishes code {n} c {c'} g parent ts xs zs some_worker idle h land steps =
    let (xs', ps', zs', es', going, left, land') =
      Steps-Going steps land (gathering-Going c.slots h idle) in
    let start = AllIdle-owed c.need c.slots idle in
    (
      Going-IsPatient ts c' c.world.terminated going h.waits.owner h.hooked,
      elim (none_or_more (steps_left c'.need c'.slots xs' ps')) [
        | inl over ↦ inr (omega (arith, left, start), over-IsDone c'.need going over)
        | inr rest ↦ inl (
          omega (arith, left, start),
          goes_further code c'.need going land' (Steps-nonempty steps some_worker) rest,
        )
      ],
    )
