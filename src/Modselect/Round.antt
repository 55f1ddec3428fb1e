-- ===== src/Modselect/Round.antt =====
-- pcaio/modselect.c as the module of the main loop of pcaio/master.c.
use pcaio.Prelude.{
  ℕ, ◌/◌, ◌%◌, ◌≡◌, refl, sym, subst, Bool, true, false, Option, none, some, List, ◌∷◌, Ptr, done,
}
use pcaio.Master.{
  State, Callbacks, TickStatus, pms_again, pms_panic, tick_all, timeout_long, main_loop, goes_on,
}
use pcaio.Master.Reset.{Harmless}
use pcaio.Master.Round.{rested, timeout_of, IsOnly, panicked, tick_all-again, tick_all-panic}
use pcaio.Master.Panic.{StaysPanicked, AllStay, panic_stays, panicked-AllPanicked}
use pcaio.Modselect.{Select, FdSets, SelectCall, no_fds, tick}
use pcaio.Modselect.Collect.{add_all}
use pcaio.Modselect.Sweep.{Swept}
use pcaio.Modselect.Tick.{Waiting, tick-Swept, Broken, tick-Broken}
use pcaio.Modselect.Use.{Module, dtor}

-- What the module keeps: what it works on, and how it was installed.
pub record Memory : Type 0 where
  pub select : Select
  pub installed : Module

-- The module sees the tasks and the queue of the main thread's state, and what it does to them is
-- done to that state.
abbrev pub lend : State Memory → Select
lend s = record s.memory.select { world = s.world }

abbrev pub put : Select → State Memory → State Memory
put v s = record s { memory = record s.memory { select = v }; world = v.world }

-- What is not in the module's own code: `select`, what the other threads do while the main thread
-- sleeps, and what comes of a read out of the bounds of the ring's array.
pub record Outside : Type 0 where
  pub select : SelectCall
  pub sleep : ℕ → State Memory → State Memory
  pub undefined : State Memory → TickStatus × State Memory

-- The functions that `pcaio_modselect_use` puts into its `struct pcaio_module`; there is no `init`.
unfoldable pub select_callbacks : Outside → Callbacks Memory
select_callbacks out = record {
  has_init = λ m. false;
  init = λ m s. (done, s);
  has_dtor = λ m. true;
  dtor = λ m s.
      let (r, k) = dtor s.memory.installed in
      (r, record s { memory = record s.memory { installed = k } });
  has_tick = λ m. true;
  tick = λ m timeout s. elim (tick out.select timeout (lend s)) [
    | none ↦ out.undefined s
    | some (status, v) ↦ (status, put v s)
  ];
  sleep = out.sleep;
}

-- The state in which a round ticks the module, and what `select` answers about the events `es`.
abbrev pub awake : Outside → Bool → State Memory → State Memory
awake out any s = rested (select_callbacks out) any s

abbrev pub answer : Outside → Bool → List Ptr → State Memory → Option FdSets
answer out any es s =
    out.select s.memory.select.maxfileno (add_all s.memory.select.io es no_fds)
      (timeout_of any / 1000000) (timeout_of any % 1000000)

-- One tick, as the main loop sees it.
callback_tick :
    (out : Outside) (m : Ptr) (timeout : ℕ) (s : State Memory) (status : TickStatus) (v : Select)
    → tick out.select timeout (lend s) ≡ some (status, v)
    → (select_callbacks out).tick m timeout s ≡ (status, put v s)
unfolding select_callbacks
callback_tick out m timeout s status v ticked = rw (select_callbacks, ticked) refl

-- With `select` the only module, which has not panicked: a round of the main loop whose `select`
-- succeeds, for events whose tasks are new to the queue, loses none of them. The tasks of the events
-- for which something came are queued for the workers in the order of the ring, and each is told
-- what came; the other events wait on, behind those that `swap` had no room for. The next round does
-- not sleep.
pub round-Swept :
    (out : Outside) (m : Ptr) (any : Bool) (k : ℕ) (e : Ptr) (ys zs queued : List Ptr)
    (sets : FdSets) (s : State Memory)
    → IsOnly (select_callbacks out) m (awake out any s)
    → Waiting k (lend (awake out any s)) e ys zs queued
    → answer out any (e ∷ ys) (awake out any s) ≡ some sets
    → (s1 : State Memory) × (tick_all (select_callbacks out) any s ≡ (true, s1))
      × Swept k pms_again false sets
          (e ∷ ys)
          zs
          queued
          (awake out any s).memory.select.io
          (awake out any s).world.tasks
          (pms_again, lend s1)
round-Swept out m any k e ys zs queued sets s o w answers =
    let s0 = awake out any s in
    let ((status, v), ticked, d) =
      tick-Swept out.select (timeout_of any) k (lend s0) e ys zs queued sets w answers in
    let seen = callback_tick out m (timeout_of any) s0 status v ticked in
    (
      put v s0,
      tick_all-again (select_callbacks out) m any s (put v s0) o
          (subst
            (λ (r : TickStatus). (select_callbacks out).tick m (timeout_of any) s0 ≡ (r, put v s0))
            d.status seen)
          o.one,
      record {
        status = refl;
        ring = d.ring;
        queue = d.queue;
        told = d.told;
        same_tasks = d.same_tasks;
      },
    )

-- With `select` the only module, which has not panicked: when `select` fails in one round, for events
-- whose tasks are new to the queue, the round queues the tasks of all events that it has taken from
-- the ring, with an error for each; and from then on no tick of the module is called any more, so that
-- the events left in the ring stay there, whatever `select` would say, in whatever rounds follow, as
-- long as nothing clears the flag of a module and none is installed.
pub select_failure_stays :
    (out : Outside) (m : Ptr) (any : Bool) (k : ℕ) (e : Ptr) (ys zs queued : List Ptr)
    (s : State Memory) (select : SelectCall) (undefined : State Memory → TickStatus × State Memory)
    (rounds : List (State Memory → State Memory))
    → IsOnly (select_callbacks out) m (awake out any s)
    → Waiting k (lend (awake out any s)) e ys zs queued
    → answer out any (e ∷ ys) (awake out any s) ≡ none
    → goes_on s ≡ true
    → StaysPanicked (out.sleep timeout_long)
    → AllStay rounds
    → (s1 : State Memory) × Broken k
        (e ∷ ys)
        zs
        queued
        (awake out any s).memory.select.io
        (pms_panic, lend s1)
      × (main_loop (select_callbacks out) ((λ v. v) ∷ rounds) any s
          ≡ main_loop
              (select_callbacks (record out { select = select; undefined = undefined }))
              rounds
              false
              s1)
unfolding select_callbacks main_loop
select_failure_stays out m any k e ys zs queued s select undefined rounds o w answers runs sleeps
      keep =
    let cb = select_callbacks out in
    let s0 = awake out any s in
    let ((status, v), ticked, d) =
      tick-Broken out.select (timeout_of any) k (lend s0) e ys zs queued w answers in
    let s1 = panicked m (put v s0) in
    let seen = callback_tick out m (timeout_of any) s0 status v ticked in
    let one =
      tick_all-panic cb m any s (put v s0) o
        (subst (λ (r : TickStatus). cb.tick m (timeout_of any) s0 ≡ (r, put v s0)) d.status seen)
        o.one o.well in
    let rest =
      panic_stays cb (select_callbacks (record out { select = select; undefined = undefined })).tick
        rounds false s1 (panicked-AllPanicked m (put v s0) o.one o.first) keep sleeps in
    (
      s1,
      record { status = refl; ring = d.ring; queue = d.queue; told = d.told },
      rw (runs, one) (sym rest),
    )

-- The module's function to stop changes nothing but what the module keeps.
pub select_callbacks-Harmless : (out : Outside) → Harmless (select_callbacks out)
unfolding select_callbacks dtor
select_callbacks-Harmless out = record {
  inits = λ m s. (s.memory, refl);
  dtors = λ m s. (record s.memory { installed = (dtor s.memory.installed).1 }, refl);
}
