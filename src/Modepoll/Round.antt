-- ===== src/Modepoll/Round.antt =====
-- pcaio/modepoll.c as the module of the main loop of pcaio/master.c.
use pcaio.Prelude.{
  ℕ, ◌/◌, ◌≤◌, ◌≡◌, refl, sym, subst, Bool, true, false, Option, none, some, List, ◌∷◌, Ptr, length,
}
use pcaio.Master.{
  State, Callbacks, TickStatus, pms_again, pms_panic, tick_all, timeout_long, main_loop, goes_on,
}
use pcaio.Master.Round.{rested, timeout_of, IsOnly, panicked, tick_all-again, tick_all-panic}
use pcaio.Master.Reset.{Harmless}
use pcaio.Master.Panic.{StaysPanicked, AllStay, panic_stays, panicked-AllPanicked}
use pcaio.Modepoll.{Epoll, Module, Came, WaitCall, init, dtor, tick}
use pcaio.Modepoll.Tick.{Waiting, Among, reported, Delivered, tick-Delivered}
use pcaio.Modepoll.Drain.{Drained, tick-Drained}

-- What the module keeps: what it works on, and how it was installed.
pub record Memory : Type 0 where
  pub epoll : Epoll
  pub installed : Module

-- The module sees the tasks and the queue of the main thread's state, and what it does to them is
-- done to that state.
abbrev pub lend : State Memory → Epoll
lend s = record s.memory.epoll { world = s.world }

abbrev pub put : Epoll → State Memory → State Memory
put e s = record s { memory = record s.memory { epoll = e }; world = e.world }

-- What is not in the module's own code: what `epoll_create1` returns, `epoll_wait`, what the other
-- threads do while the main thread sleeps, and what comes of a write behind the end of the array.
pub record Outside : Type 0 where
  pub created : Option ℕ
  pub wait : WaitCall
  pub sleep : ℕ → State Memory → State Memory
  pub undefined : State Memory → TickStatus × State Memory

-- The functions that `pcaio_modepoll_use` puts into its `struct pcaio_module`.
unfoldable pub epoll_callbacks : Outside → Callbacks Memory
epoll_callbacks out = record {
  has_init = λ m. true;
  init = λ m s. let (r, e) = init out.created (lend s) in (r, put e s);
  has_dtor = λ m. true;
  dtor = λ m s.
      let (r, k) = dtor s.memory.epoll.fd s.memory.installed in
      (r, record s { memory = record s.memory { installed = k } });
  has_tick = λ m. true;
  tick = λ m timeout s. elim (tick out.wait timeout (lend s)) [
    | none ↦ out.undefined s
    | some (status, e) ↦ (status, put e s)
  ];
  sleep = out.sleep;
}

-- The state in which a round ticks the module, and what `epoll_wait` answers to the tick.
abbrev pub awake : Outside → Bool → State Memory → State Memory
awake out any s = rested (epoll_callbacks out) any s

abbrev pub answer : Outside → Bool → State Memory → Option (List Came)
answer out any s = out.wait s.memory.epoll.fd s.memory.epoll.waiting.count (timeout_of any / 1000)

-- One tick, as the main loop sees it.
callback_tick :
    (out : Outside) (m : Ptr) (timeout : ℕ) (s : State Memory) (status : TickStatus) (e : Epoll)
    → tick out.wait timeout (lend s) ≡ some (status, e)
    → (epoll_callbacks out).tick m timeout s ≡ (status, put e s)
unfolding epoll_callbacks
callback_tick out m timeout s status e ticked = rw (epoll_callbacks, ticked) refl

-- With `epoll` the only module, which has not panicked: a round of the main loop in which
-- `epoll_wait` reports some of the events that wait, none twice, not more than there are places for,
-- and whose tasks are new to the queue, puts exactly these tasks into the queue of the workers, in
-- the order of the report, tells each event what came, and keeps the others waiting. The next round
-- does not sleep.
pub round-Delivered :
    (out : Outside) (m : Ptr) (any : Bool) (cs : List Came) (ws queued : List Ptr)
    (s : State Memory)
    → IsOnly (epoll_callbacks out) m (awake out any s)
    → Waiting (lend (awake out any s)) ws (reported cs) queued
    → answer out any (awake out any s) ≡ some cs
    → Among ws (reported cs)
    → length cs ≤ (awake out any s).memory.epoll.maxevents
    → (s1 : State Memory) × (tick_all (epoll_callbacks out) any s ≡ (true, s1))
      × Delivered cs ws queued (awake out any s).memory.epoll.io (pms_again, lend s1)
round-Delivered out m any cs ws queued s o w answers among fits =
    let s0 = awake out any s in
    let ((status, e), ticked, d) =
      tick-Delivered out.wait (timeout_of any) cs ws queued (lend s0) w answers among fits in
    let seen = callback_tick out m (timeout_of any) s0 status e ticked in
    (
      put e s0,
      tick_all-again (epoll_callbacks out) m any s (put e s0) o
          (subst
            (λ (r : TickStatus). (epoll_callbacks out).tick m (timeout_of any) s0 ≡ (r, put e s0))
            d.status seen)
          o.one,
      record { status = refl; waiting = d.waiting; queue = d.queue; told = d.told },
    )

-- With `epoll` the only module, which has not panicked: when `epoll_wait` fails in one round, for
-- events whose tasks are new to the queue, the round queues the tasks of all events, with an error
-- for each, and empties the list; and from then on no tick of the module is called any more,
-- whatever `epoll_wait` would say, in whatever rounds follow, as long as nothing clears the flag of
-- a module and none is installed.
pub failure_stays :
    (out : Outside) (m : Ptr) (any : Bool) (ws queued : List Ptr) (s : State Memory)
    (wait : WaitCall) (undefined : State Memory → TickStatus × State Memory)
    (rounds : List (State Memory → State Memory))
    → IsOnly (epoll_callbacks out) m (awake out any s)
    → Waiting (lend (awake out any s)) ws ws queued
    → answer out any (awake out any s) ≡ none
    → goes_on s ≡ true
    → StaysPanicked (out.sleep timeout_long)
    → AllStay rounds
    → (s1 : State Memory) × Drained ws queued (awake out any s).memory.epoll.io (lend s1)
      × (main_loop (epoll_callbacks out) ((λ v. v) ∷ rounds) any s
          ≡ main_loop
              (epoll_callbacks (record out { wait = wait; undefined = undefined }))
              rounds
              false
              s1)
unfolding epoll_callbacks main_loop
failure_stays out m any ws queued s wait undefined rounds o w answers runs sleeps keep =
    let cb = epoll_callbacks out in
    let s0 = awake out any s in
    let (e, ticked, d) = tick-Drained out.wait (timeout_of any) ws queued (lend s0) w answers in
    let s1 = panicked m (put e s0) in
    let one =
      tick_all-panic cb m any s (put e s0) o
        (callback_tick out m (timeout_of any) s0 pms_panic e ticked) o.one o.well in
    let rest =
      panic_stays cb (epoll_callbacks (record out { wait = wait; undefined = undefined })).tick
        rounds false s1 (panicked-AllPanicked m (put e s0) o.one o.first) keep sleeps in
    (s1, record { waiting = d.waiting; queue = d.queue; told = d.told }, rw (runs, one) (sym rest))

-- When `epoll_create1` gives a descriptor, the functions of the module to start and to stop succeed,
-- and change nothing but what the module keeps.
pub epoll_callbacks-Harmless :
    (out : Outside) (fd : ℕ) → out.created ≡ some fd → Harmless (epoll_callbacks out)
unfolding epoll_callbacks init dtor
epoll_callbacks-Harmless out fd created = record {
  inits = λ m s. (record s.memory { epoll = (init (some fd) (lend s)).1 }, rw created refl);
  dtors =
      λ m s. (record s.memory { installed = (dtor s.memory.epoll.fd s.memory.installed).1 }, refl);
}
