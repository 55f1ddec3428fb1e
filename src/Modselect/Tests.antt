-- ===== src/Modselect/Tests.antt =====
-- Runs of the module of pcaio/modselect.c on small states.
use pcaio.Prelude.{
  ℕ, Bool-cases, inr, ◌==◌, if◌then◌else◌, ◌≡◌, ◌≢◌, ltb, ◌&&◌, inl, refl, true, false, none, some,
  [], ◌∷◌, arith, null, Status, done,
}
use pcaio.RingT.Refine.{IsRing}
use pcaio.ListT
use pcaio.Master.{State, pms_again, pms_panic, pms_invalid, tick_all, main_loop, goes_on}
use pcaio.Master.Samples.{no_pool}
use pcaio.Master.Round.{IsOnly}
use pcaio.Master.Panic.{StaysPanicked}
use pcaio.Relax
use pcaio.Threadlocal
use pcaio.Modselect.{no_fds, Select, FdSets, SelectCall, monitor}
use pcaio.Modselect.Sweep.{Swept}
use pcaio.Modselect.Tick.{Waiting, Broken}
use pcaio.Modselect.Wait.{parked, told, monitor-waits}
use pcaio.Modselect.Edge.{Examines, SameBelow, ticks, edge_unseen}
use pcaio.Modselect.Use.{Module, System, Used, use_select, use_select-Used}
use pcaio.Modselect.Round.{
  Memory, Outside, lend, select_callbacks, round-Swept, select_failure_stays,
}
use pcaio.Samples.{queue0, queue0-IsQueue, list0, list2, world_of}

-- The events 101 and 102 are in a ring of four places: the tasks 5 and 7 wait to read from the
-- descriptors 3 and 4.
abbrev two_wait : Select
two_wait = record {
  iomod = 50;
  maxfileno = 5;
  ring = record {
    head = 3;
    tail = 1;
    mask = 3;
    headx = false;
    tailx = false;
    backend = 102 ∷ 0 ∷ 0 ∷ 101 ∷ [];
  };
  io = record {
    fd = λ e. if e == 101 then 3 else 4;
    events = λ e. 1;
    task = λ e. if e == 101 then 5 else 7;
  };
  world = world_of queue0 list0;
}

two_wait-IsRing : IsRing 2 two_wait.ring (101 ∷ 102 ∷ [])
two_wait-IsRing = record {
  width = omega arith;
  masked = refl;
  places = refl;
  head_in = omega arith;
  tail_at = refl;
  room = omega arith;
  holds = (refl, (refl, tt));
}

two_wait-Waiting : Waiting 2 two_wait 101 (102 ∷ []) [] []
two_wait-Waiting = record {
  ring = two_wait-IsRing;
  wanted = (omega arith, (omega arith, tt));
  fits = (omega arith, inl refl);
  queue = queue0-IsQueue;
  room = omega arith;
  new_tasks = ((omega arith, (omega arith, tt)), (refl, (refl, tt)), (refl, (refl, tt)));
}

-- Only the descriptor 3 can be read.
abbrev three_ready : FdSets
three_ready = record { rfds = λ fd. fd == 3; wfds = λ fd. false; efds = λ fd. false }

abbrev answers : SelectCall
answers nfds sets sec usec = some three_ready

abbrev breaks : SelectCall
breaks nfds sets sec usec = none

-- The module is the only one of a main thread with two tasks.
abbrev main : State Memory
main = record {
  workers = 1;
  cancel = false;
  world = world_of queue0 list2;
  pool = no_pool;
  modulescount = 1;
  modules = λ i. 50;
  module_flags = λ m. 0;
  memory = record {
    select = two_wait;
    installed = record { iomod = 50; maxfileno = 5; ring = two_wait.ring; freed = [] };
  };
}

abbrev outside : SelectCall → Outside
outside select = record {
  select = select;
  sleep = λ timeout s. s;
  undefined = λ s. (pms_invalid, s);
}

main-IsOnly : (select : SelectCall) → IsOnly (select_callbacks (outside select)) 50 main
unfolding select_callbacks
main-IsOnly select = record { one = refl; first = refl; ticks = refl; well = refl }

main-Waiting : Waiting 2 (lend main) 101 (102 ∷ []) [] []
main-Waiting = record {
  ring = two_wait-Waiting.ring;
  wanted = two_wait-Waiting.wanted;
  fits = two_wait-Waiting.fits;
  queue = two_wait-Waiting.queue;
  room = two_wait-Waiting.room;
  new_tasks = two_wait-Waiting.new_tasks;
}

round-Swept_example :
    (s1 : State Memory) × (tick_all (select_callbacks (outside answers)) true main ≡ (true, s1))
    × Swept 2 pms_again false three_ready
        (101 ∷ 102 ∷ [])
        []
        []
        two_wait.io
        list2
        (pms_again, lend s1)
round-Swept_example =
    round-Swept (outside answers) 50 true 2 101 (102 ∷ []) [] [] three_ready main
      (main-IsOnly answers) main-Waiting refl

main-goes_on : goes_on main ≡ true
unfolding ListT.append
main-goes_on = refl

-- A round of the other threads that lets the flags be.
same_stays : StaysPanicked (λ (s : State Memory). s)
same_stays s p = p

select_failure_stays_example :
    (s1 : State Memory) × Broken 2 (101 ∷ 102 ∷ []) [] [] two_wait.io (pms_panic, lend s1)
    × (main_loop (select_callbacks (outside breaks)) ((λ v. v) ∷ (λ v. v) ∷ []) true main
        ≡ main_loop (select_callbacks (outside answers)) ((λ v. v) ∷ []) false s1)
select_failure_stays_example =
    select_failure_stays (outside breaks) 50 true 2 101 (102 ∷ []) [] [] main answers
      (λ s. (pms_invalid, s)) ((λ v. v) ∷ []) (main-IsOnly breaks) main-Waiting refl main-goes_on
      same_stays (same_stays, tt)

-- The task comes back, and nothing was stored in its event.
abbrev comes_back : Select → Status × Select
comes_back s = (done, s)

live : Relax.self 3 two_wait.world ≢ null
unfolding Relax.self Threadlocal.get
live = omega arith

monitor-waits_example :
    IsRing 2 (parked 3 103 2 1 two_wait).ring (101 ∷ 102 ∷ 103 ∷ [])
    × (monitor 3 103 comes_back 2 1 two_wait ≡ told 103 (comes_back (parked 3 103 2 1 two_wait)).1)
monitor-waits_example =
    monitor-waits 3 103 comes_back 2 2 1 two_wait (101 ∷ 102 ∷ []) two_wait-IsRing (omega arith)
      refl live (omega arith) refl

abbrev unused : Module
unused = record { iomod = null; maxfileno = 0; ring = two_wait.ring; freed = [] }

abbrev grants : System
grants = record {
  rlim_max = some 1024;
  memory = 50;
  events = λ n. some (8 ∷ 8 ∷ 8 ∷ 8 ∷ []);
  ceil_log2 = λ n. 2;
}

-- No module is installed yet.
abbrev fresh : State (Unit {0})
fresh = record {
  workers = 0;
  cancel = false;
  world = world_of queue0 list0;
  pool = record {
    count = 0;
    threads = λ i. 0;
    mutex = false;
    cancelled = [];
    joined = [];
    errno = 0;
    ready = false;
  };
  modulescount = 0;
  modules = λ i. null;
  module_flags = λ m. 0;
  memory = tt;
}

use_select-Used_example :
    (out : Status × Module × State (Unit {0})) × (use_select grants 4 unused fresh ≡ some out)
    × Used grants 4 2 unused fresh out
use_select-Used_example =
    use_select-Used grants 4 1024 2 unused fresh refl (omega arith) refl (omega arith) (omega arith)
      refl (omega arith) refl refl (omega arith)

-- The limit is 4, select reports what is ready of what it is asked about below `nfds`, and reports
-- nothing else.
abbrev below_four : Select
below_four = record two_wait { maxfileno = 4 }

abbrev reports : FdSets → SelectCall
reports ready nfds sets sec usec = some (record {
  rfds = λ fd. if ltb fd nfds then sets.rfds fd && ready.rfds fd else false;
  wfds = λ fd. if ltb fd nfds then sets.wfds fd && ready.wfds fd else false;
  efds = λ fd. if ltb fd nfds then sets.efds fd && ready.efds fd else false;
})

reports-Examines : Examines reports
reports-Examines ready ready' nfds same sets sec usec = λ k.
    some (record { rfds = λ fd. reads fd k; wfds = λ fd. writes fd k; efds = λ fd. fails fd k })
  where
    reads :
        (fd : ℕ)
        → (if ltb fd nfds then sets.rfds fd && ready.rfds fd else false)
          ≡ (if ltb fd nfds then sets.rfds fd && ready'.rfds fd else false)
    reads fd = elim (Bool-cases (ltb fd nfds)) [
      | inl below ↦ rw (below, (same fd (ground arith)).0) refl
      | inr beyond ↦ rw beyond refl
    ]

    writes :
        (fd : ℕ)
        → (if ltb fd nfds then sets.wfds fd && ready.wfds fd else false)
          ≡ (if ltb fd nfds then sets.wfds fd && ready'.wfds fd else false)
    writes fd = elim (Bool-cases (ltb fd nfds)) [
      | inl below ↦ rw (below, (same fd (ground arith)).1) refl
      | inr beyond ↦ rw beyond refl
    ]

    fails :
        (fd : ℕ)
        → (if ltb fd nfds then sets.efds fd && ready.efds fd else false)
          ≡ (if ltb fd nfds then sets.efds fd && ready'.efds fd else false)
    fails fd = elim (Bool-cases (ltb fd nfds)) [
      | inl below ↦ rw (below, (same fd (ground arith)).2) refl
      | inr beyond ↦ rw beyond refl
    ]

-- The descriptor 4 is ready, or nothing is.
abbrev four_ready : FdSets
four_ready = record { rfds = λ fd. fd == 4; wfds = λ fd. false; efds = λ fd. false }

four_unseen : SameBelow 4 four_ready no_fds
four_unseen fd below = (ground arith, refl, refl)

edge_unseen_example :
    IsRing 2 (parked 3 103 4 1 below_four).ring (101 ∷ 102 ∷ 103 ∷ [])
    × ((parked 3 103 4 1 below_four).io.fd 103 ≡ 4)
    × (monitor 3 103 comes_back 4 1 below_four
        ≡ told 103 (comes_back (parked 3 103 4 1 below_four)).1)
    × (ticks reports ((four_ready, 100) ∷ (four_ready, 200) ∷ []) (parked 3 103 4 1 below_four)
        ≡ ticks reports ((no_fds, 100) ∷ (no_fds, 200) ∷ []) (parked 3 103 4 1 below_four))
edge_unseen_example =
    edge_unseen 3 103 comes_back 2 1 below_four (101 ∷ 102 ∷ []) reports
      ((four_ready, 100) ∷ (four_ready, 200) ∷ []) ((no_fds, 100) ∷ (no_fds, 200) ∷ [])
      two_wait-IsRing (omega arith) refl (omega arith) (omega arith) live (omega arith) refl
      reports-Examines (four_unseen, refl, (four_unseen, refl, tt))
