-- ===== src/Worker/Team/Tests.antt =====
-- Two workers of pcaio/worker.c on two tasks.
use pcaio.Prelude.{
  some, true, ℕ, ◌*◌, ◌<◌, ◌≡◌, refl, ◌≢◌, ◌⊎◌, [], ◌∷◌, Ptr, ◌==◌, if◌then◌else◌, has, arith, List,
  null, update,
}
use pcaio.ListT
use pcaio.ListT.{DList}
use pcaio.ListT.Refine.{IsList, append-outside}
use pcaio.QueueT
use pcaio.QueueT.{Queue}
use pcaio.QueueT.Pop.{popped, pop-cons}
use pcaio.Worker.{running, set_task, settle, without_noschedule}
use pcaio.Worker.Plan.{came_back}
use pcaio.Worker.Needs.{next_act, next_need, total, IsWorking}
use pcaio.Worker.Team.{idle, runs, back, at, Team, Step, takes, comes, Steps, stay, go}
use pcaio.Worker.Team.{comes_out}
use pcaio.Worker.Team.Landing.{Landed, comes_out-Lands}
use pcaio.Worker.Team.Busy.{CanStep}
use pcaio.Worker.Team.Finish.{IsDone, team_finishes}
use pcaio.Worker.Team.Group.{IsPatient}
use pcaio.Worker.Team.Gatherer.{CanGather, gather_completes}
use pcaio.World.{World, task_noschedule}
use pcaio.Relax.{self}
use pcaio.Threadlocal
use pcaio.Gather.Start.{Arranged}
use pcaio.Samples.{queue0, queue2, queue2-IsQueue, list2, list2-IsList, world_of}

-- The tasks 5 and 7 are alive and wait; 5 gives way once, and 7 returns 70 at once.
abbrev need : Ptr → ℕ
need t = if t == 5 then 1 else 0

abbrev code : Ptr → ℕ
code t = t * 10

abbrev begin : Team
begin = record { world = world_of queue2 list2; need = need; slots = at 3 idle ∷ at 4 idle ∷ [] }

abbrev queue_left : Queue
queue_left = popped (QueueT.lock queue2)

-- The worker 4 has taken 5, the worker 3 has taken 7, and 7 has ended.
abbrev first : Team
first = record {
  world = set_task 0 4 5 (record begin.world { taskq = queue_left });
  need = need;
  slots = at 3 idle ∷ at 4 (runs 5) ∷ [];
}

abbrev second : Team
second = record {
  world = set_task 0 3 7 (record first.world { taskq = popped (QueueT.lock queue_left) });
  need = need;
  slots = at 3 (runs 7) ∷ at 4 (runs 5) ∷ [];
}

abbrev third : Team
third = record {
  world = came_back (next_act code need 7) 7 second.world;
  need = next_need need 7;
  slots = at 3 (back (next_act code need 7) 7) ∷ at 4 (runs 5) ∷ [];
}

second_takes : Step code first second
unfolding set_task
second_takes =
    takes [] (at 4 (runs 5) ∷ []) 3 7 (popped (QueueT.lock queue_left)) refl
      (pop-cons true [] (pop-cons true [] queue2-IsQueue).1).0

seven_returns : comes_out 3 (next_act code need 7) 7 second.world ≡ some third.world
unfolding set_task Threadlocal.set
seven_returns =
    comes_out-Lands 3 (next_act code need 7) 7 second.world (omega arith) (omega arith, refl)

begin-Landed : Landed begin
begin-Landed = (omega arith, refl, (omega arith, refl, tt))

trace : Steps code 3 begin third
trace =
    go (takes (at 3 idle ∷ []) [] 4 5 queue_left refl (pop-cons true [] queue2-IsQueue).0)
      (go second_takes (go (comes [] (at 4 (runs 5) ∷ []) 3 7 third.world refl seven_returns) stay))

some_slot : begin.slots ≢ []
some_slot e = cc

begin-IsWorking : IsWorking begin.world (5 ∷ 7 ∷ []) (5 ∷ 7 ∷ [])
begin-IsWorking = record {
  plain = record {
    queue = queue2-IsQueue;
    alive = list2-IsList;
    lives = λ t h. refl;
    free_to_run = λ t h. refl;
    no_hook = λ t. refl;
    no_callback = λ t. refl;
  };
  same = λ t. refl;
}

team_finishes_example :
    ((3 < 3 * total need (5 ∷ 7 ∷ [])) × CanStep code third)
    ⊎ ((3 ≡ 3 * total need (5 ∷ 7 ∷ []))
        × IsDone begin.world.stack begin.world.freed (5 ∷ 7 ∷ []) third.world third.slots)
team_finishes_example =
    team_finishes code begin (5 ∷ 7 ∷ []) (5 ∷ 7 ∷ []) some_slot (refl, (refl, tt)) begin-Landed
      begin-IsWorking trace

-- The task 9 waits for 5 and 7.
abbrev list3 : DList
list3 = (ListT.append 9 list2).1

list3-IsList : IsList list3 (5 ∷ 7 ∷ 9 ∷ [])
list3-IsList = (append-outside 9 list2-IsList (omega arith) refl (omega arith)).1

abbrev group : List Ptr
group = 5 ∷ 7 ∷ []

two_tasks : group ≢ []
two_tasks e = cc

-- The task 9 runs in the thread 3, before it calls `pcaio_gatherA`, and where that has left its
-- context.
abbrev calling : World
calling = world_of queue0 list3

abbrev arranged : World
arranged = record calling {
  taskq = queue2;
  terminated = λ t. has t (5 ∷ 7 ∷ []);
  gather_count = λ g. 2;
  gather_task = λ g. 9;
  flags = update calling.flags 9 task_noschedule;
}

arranged-Arranged : Arranged 60 3 (5 ∷ 7 ∷ []) [] calling arranged
unfolding self Threadlocal.get
arranged-Arranged = record {
  all_in = (refl, (refl, tt));
  hooked = λ t. ground arith;
  waits = record { count = refl; owner = refl; alive = refl; queue = queue2-IsQueue };
  flags = refl;
  tasks = refl;
  callback = refl;
}

calling-CanGather : CanGather calling (self 3 calling) (5 ∷ 7 ∷ []) [] (5 ∷ 7 ∷ 9 ∷ [])
unfolding self Threadlocal.get
calling-CanGather = record {
  alive = list3-IsList;
  same = λ t. ground arith;
  apart = refl;
  live = omega arith;
  some = two_tasks;
  small = omega arith;
  room = omega arith;
  ready = λ t h. (refl, refl);
  no_hook = λ t. refl;
  no_callback = λ t. refl;
}

-- Then its worker has kept it out of the queue.
abbrev grouped : Team
grouped = record {
  world = record (set_task 0 3 null arranged) {
    flags = update arranged.flags 9 (without_noschedule task_noschedule);
  };
  need = need;
  slots = at 3 idle ∷ at 4 idle ∷ [];
}

some_grouped : grouped.slots ≢ []
some_grouped e = cc

grouped_settled : settle (self 3 calling) (set_task 0 3 null arranged) ≡ running grouped.world
unfolding settle set_task self Threadlocal.get
grouped_settled = refl

-- The worker 4 has taken 5, and 5 has given way.
abbrev grouped_first : Team
grouped_first = record {
  world = set_task 0 4 5 (record grouped.world { taskq = queue_left });
  need = need;
  slots = at 3 idle ∷ at 4 (runs 5) ∷ [];
}

abbrev grouped_second : Team
grouped_second = record {
  world = came_back (next_act code need 5) 5 grouped_first.world;
  need = next_need need 5;
  slots = at 3 idle ∷ at 4 (back (next_act code need 5) 5) ∷ [];
}

five_yields : comes_out 4 (next_act code need 5) 5 grouped_first.world ≡ some grouped_second.world
unfolding set_task Threadlocal.set
five_yields =
    comes_out-Lands 4 (next_act code need 5) 5 grouped_first.world (omega arith) (omega arith, refl)

grouped-Landed : Landed grouped
unfolding set_task
grouped-Landed = (omega arith, refl, (omega arith, refl, tt))

grouped_trace : Steps code 2 grouped grouped_second
unfolding set_task
grouped_trace =
    go (takes (at 3 idle ∷ []) [] 4 5 queue_left refl (pop-cons true [] queue2-IsQueue).0)
      (go (comes (at 3 idle ∷ []) [] 4 5 grouped_second.world refl five_yields) stay)

gather_completes_example :
    IsPatient 9 (5 ∷ 7 ∷ []) grouped_second
    × (((2 < 3 * total need (9 ∷ 5 ∷ 7 ∷ [])) × CanStep code grouped_second)
        ⊎ ((2 ≡ 3 * total need (9 ∷ 5 ∷ 7 ∷ []))
            × IsDone grouped.world.stack grouped.world.freed
                (9 ∷ 5 ∷ 7 ∷ [])
                grouped_second.world
                grouped_second.slots))
unfolding self Threadlocal.get
gather_completes_example =
    gather_completes code need grouped.slots 60 3 0 (5 ∷ 7 ∷ []) [] (5 ∷ 7 ∷ 9 ∷ []) calling
      arranged grouped.world arranged-Arranged calling-CanGather grouped_settled some_grouped
      (refl, (refl, tt)) grouped-Landed grouped_trace
