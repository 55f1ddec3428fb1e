-- ===== src/Modepoll/Tests.antt =====
-- Runs of the module of pcaio/modepoll.c on small states.
use pcaio.Prelude.{
  ◌==◌, if◌then◌else◌, ◌≡◌, ◌≢◌, inr, refl, true, false, none, some, List, Ptr, [], ◌∷◌, arith,
  null, Status, done,
}
use pcaio.ListT.Refine.{IsList}
use pcaio.ListT
use pcaio.Master.{State, pms_again, pms_invalid, tick_all, main_loop, goes_on}
use pcaio.Master.Samples.{no_pool}
use pcaio.Master.Round.{IsOnly}
use pcaio.Master.Panic.{StaysPanicked}
use pcaio.Relax
use pcaio.Threadlocal
use pcaio.Modepoll.{Epoll, Came, WaitCall, Controls, monitor}
use pcaio.Modepoll.Tick.{Waiting, Delivered}
use pcaio.Modepoll.Drain.{Drained}
use pcaio.Modepoll.Wait.{parked, land, monitor-lists}
use pcaio.Modepoll.Round.{Memory, Outside, lend, epoll_callbacks, round-Delivered, failure_stays}
use pcaio.Samples.{queue0, queue0-IsQueue, list0, list2, list2-IsList, world_of}

-- The events 5 and 7 of the tasks 15 and 17 wait.
abbrev two_wait : Epoll
two_wait = record {
  iomod = 50;
  fd = 6;
  maxevents = 4;
  waiting = list2;
  io = record {
    fd = λ e. if e == 5 then 3 else 4;
    events = λ e. 1;
    task = λ e. if e == 5 then 15 else 17;
  };
  world = world_of queue0 list0;
  controls = [];
}

-- The last of them is reported.
abbrev second : List Came
second = record { event = 7; events = 4 } ∷ []

abbrev reports : WaitCall
reports epfd maxevents timeout = some second

abbrev breaks : WaitCall
breaks epfd maxevents timeout = none

abbrev two : List Ptr
two = 5 ∷ 7 ∷ []

nonempty : two ≢ []
nonempty = λ e. cc

one_waits : Waiting two_wait (5 ∷ 7 ∷ []) (7 ∷ []) []
one_waits = record {
  waiting = list2-IsList;
  some_wait = nonempty;
  queue = queue0-IsQueue;
  room = omega arith;
  new_tasks = ((omega arith, tt), (refl, tt), (refl, tt));
}

-- The module is the only one of a main thread with two tasks.
abbrev main : State Memory
main = record {
  workers = 1;
  cancel = false;
  world = world_of queue0 list2;
  pool = no_pool;
  modulescount = 1;
  modules = λ i. 50;
  module_flags = λ m. 0;
  memory = record {
    epoll = two_wait;
    installed = record { iomod = 50; maxevents = 4; closed = []; freed = [] };
  };
}

abbrev outside : WaitCall → Outside
outside wait = record {
  created = some 6;
  wait = wait;
  sleep = λ timeout s. s;
  undefined = λ s. (pms_invalid, s);
}

main-IsOnly : (wait : WaitCall) → IsOnly (epoll_callbacks (outside wait)) 50 main
unfolding epoll_callbacks
main-IsOnly wait = record { one = refl; first = refl; ticks = refl; well = refl }

round-Delivered_example :
    (s1 : State Memory) × (tick_all (epoll_callbacks (outside reports)) true main ≡ (true, s1))
    × Delivered second (5 ∷ 7 ∷ []) [] two_wait.io (pms_again, lend s1)
round-Delivered_example =
    round-Delivered (outside reports) 50 true second (5 ∷ 7 ∷ []) [] main (main-IsOnly reports)
      (record {
        waiting = one_waits.waiting;
        some_wait = nonempty;
        queue = one_waits.queue;
        room = one_waits.room;
        new_tasks = one_waits.new_tasks;
      })
      refl (refl, tt) (omega arith)

all_wait : Waiting two_wait (5 ∷ 7 ∷ []) (5 ∷ 7 ∷ []) []
all_wait = record {
  waiting = list2-IsList;
  some_wait = nonempty;
  queue = queue0-IsQueue;
  room = omega arith;
  new_tasks = ((omega arith, (omega arith, tt)), (refl, (refl, tt)), (refl, (refl, tt)));
}

main-goes_on : goes_on main ≡ true
unfolding ListT.append
main-goes_on = refl

-- A round of the other threads that lets the flags be.
same_stays : StaysPanicked (λ (s : State Memory). s)
same_stays s p = p

failure_stays_example :
    (s1 : State Memory) × Drained (5 ∷ 7 ∷ []) [] two_wait.io (lend s1)
    × (main_loop (epoll_callbacks (outside breaks)) ((λ v. v) ∷ (λ v. v) ∷ []) true main
        ≡ main_loop (epoll_callbacks (outside reports)) ((λ v. v) ∷ []) false s1)
failure_stays_example =
    failure_stays (outside breaks) 50 true (5 ∷ 7 ∷ []) [] main reports (λ s. (pms_invalid, s))
      ((λ v. v) ∷ []) (main-IsOnly breaks)
      (record {
        waiting = all_wait.waiting;
        some_wait = nonempty;
        queue = all_wait.queue;
        room = all_wait.room;
        new_tasks = all_wait.new_tasks;
      })
      refl main-goes_on same_stays (same_stays, tt)

-- The descriptor is new to `epoll`, so it is added.
abbrev adds : Controls
adds = record { modify = 2; add = 0 }

abbrev comes_back : Epoll → Status × Epoll
comes_back s = (done, s)

live : Relax.self 3 two_wait.world ≢ null
unfolding Relax.self Threadlocal.get
live = omega arith

monitor-lists_example :
    IsList (parked 3 8 2 1 two_wait).waiting (5 ∷ 7 ∷ 8 ∷ [])
    × (monitor 3 8 comes_back adds 2 1 two_wait ≡ land 8 2 (comes_back (parked 3 8 2 1 two_wait)))
monitor-lists_example =
    monitor-lists 3 8 comes_back adds 2 1 two_wait list2-IsList (omega arith) refl (omega arith)
      refl live (omega arith) (inr refl)
