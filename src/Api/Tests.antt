-- ===== src/Api/Tests.antt =====
-- Runs of `pcaio_fschedule` and of `pcaio` on small states.
use pcaio.Prelude.{
  ℕ, ◌*◌, ◌≡◌, inr, refl, true, none, some, List, [], ◌∷◌, map, arith, ◌==◌, if◌then◌else◌, Ptr,
  null, done, failed, length, has, Distinct,
}
use pcaio.ListT.Refine.{IsList}
use pcaio.Threadpool
use pcaio.Threadpool.Promise.{scale-granted}
use pcaio.Master.{State, main_loop, ended, address}
use pcaio.Master.Setup
use pcaio.Master.Reset.{Ready, init-Ready}
use pcaio.Task.Life.{release}
use pcaio.Master.Whole.{grown}
use pcaio.Master.Samples
use pcaio.Master.Samples.{two_made, busy, busy-Harmless, willing, willing-Grants, grants-Granted}
use pcaio.Api.Run.{Answers, signal, pcaio_run}
use pcaio.Api.Whole.{begun, Willing, pcaio-runs, pcaio_sticks}
use pcaio.Api.Complete.{IsPrepared, starts, pcaio_completes}
use pcaio.Worker.{Round}
use pcaio.Worker.Plan.{Act, Behaves, came_back}
use pcaio.Worker.Needs.{plan, total, AllBehave}
use pcaio.Master.Work.{work}
use pcaio.QueueT.Fifo.{IsQueue}
use pcaio.World.{World}
use pcaio.Task.{System}
use pcaio.Task.Life.{Fresh}
use pcaio.Api.{fschedule}
use pcaio.Api.Schedule.{fschedule-queues}
use pcaio.Samples.{queue0-IsQueue, queue1, queue1-IsQueue, list2, list2-IsList, world_of}

abbrev two_tasks : World
two_tasks = world_of queue1 list2

abbrev memory : System
memory = record { task = 9; context = 0; stack = 41 }

fschedule-queues_example :
    Fresh memory 90 (11 ∷ []) (5 ∷ 7 ∷ []) two_tasks (fschedule memory 90 80 1 (11 ∷ []) two_tasks)
    × IsQueue (fschedule memory 90 80 1 (11 ∷ []) two_tasks).1.taskq (5 ∷ 9 ∷ [])
fschedule-queues_example =
    fschedule-queues memory 90 80 (11 ∷ []) two_tasks (omega arith, refl, omega arith) (omega arith)
      list2-IsList refl (omega arith) queue1-IsQueue refl (omega arith)

-- The system grants everything, and the tasks 5 and 7 are handed to `pcaio`; the first thing that
-- happens is a signal.
abbrev answers : Answers
answers = record {
  setup = Samples.grants;
  emptyset = 0;
  action = 0;
  context = 0;
  grow = willing;
  shrink = willing;
}

answers-Willing : Willing answers (λ i. 0)
answers-Willing = record { setup = grants-Granted; emptyset = refl; action = refl }

abbrev at_start : State (Unit {0})
at_start = begun busy answers 2 (5 ∷ 7 ∷ []) two_made

abbrev at_end : State (Unit {0})
at_end = signal (grown 3 0 willing at_start)

two_made-unlinked : (a : Ptr) → two_made.world.taskq.next a ≡ null
two_made-unlinked a = queue0-IsQueue.loose a refl

at_start-Ready : Ready 2 (5 ∷ 7 ∷ []) (Setup.init busy Samples.grants 2 two_made).1
at_start-Ready =
    (init-Ready busy Samples.grants (λ i. 0) 2 two_made busy-Harmless grants-Granted refl
      list2-IsList two_made-unlinked).1

grows : (Threadpool.scale willing address at_start.workers at_start.pool).0 ≡ done
grows =
    (scale-granted willing address at_start.workers at_start.pool willing-Grants (omega arith)
      (omega (arith, at_start-Ready.workers_set)) (omega (arith, at_start-Ready.no_threads))).0

stops : main_loop busy (signal ∷ []) true (grown 3 0 willing at_start) ≡ ended at_end
unfolding main_loop signal
stops = refl

still_two : IsList at_end.world.tasks (5 ∷ 7 ∷ [])
unfolding grown signal
still_two = at_start-Ready.alive

pcaio-runs_example :
    IsQueue at_start.world.taskq (5 ∷ 7 ∷ [])
    × IsList at_start.world.tasks (5 ∷ 7 ∷ [])
    × ((final : State (Unit {0})) × (pcaio_run 3 busy answers (signal ∷ []) 2 (5 ∷ 7 ∷ []) two_made
          ≡ some ((Threadpool.scale willing address 0 at_end.pool).0, final))
        × (final.world.freed ≡ release at_end.world.stack (5 ∷ 7 ∷ []) at_end.world.freed)
        × (final.workers ≡ 0))
pcaio-runs_example =
    pcaio-runs 3 busy answers (λ i. 0) (signal ∷ []) 2 5 (7 ∷ []) two_made at_end busy-Harmless
      answers-Willing refl list2-IsList two_made-unlinked (refl, (refl, tt))
      (omega arith, (omega arith, tt)) (omega arith) grows stops still_two

-- The same, but `sigaction` is refused.
abbrev no_action : Answers
no_action = record answers { action = 1 }

pcaio_sticks_example :
    (s1 : State (Unit {0})) × (pcaio_run 3 busy no_action [] 2 (5 ∷ []) two_made
      ≡ some (failed, s1))
    × (pcaio_run 3 busy answers [] 4 (7 ∷ []) s1 ≡ some (failed, s1))
pcaio_sticks_example =
    pcaio_sticks 3 busy no_action answers (λ i. 0) [] [] 2 4 5 7 [] [] two_made busy-Harmless
      grants-Granted refl list2-IsList two_made-unlinked (omega arith) (inr (omega arith))

-- No module is installed. The task 5 gives way once, and then returns 50; 7 returns 70 at once.
abbrev bare : State (Unit {0})
bare = record two_made { modulescount = 0 }

abbrev acts : Act → Round
acts o = record {
  others = λ w. w;
  waits = [];
  store = 0;
  run = λ t w. (0, came_back o t w);
  clear = 0;
}

abbrev rounds : List Round
rounds = acts none ∷ acts (some 70) ∷ acts (some 50) ∷ []

abbrev need : Ptr → ℕ
need t = if t == 5 then 1 else 0

abbrev code : Ptr → ℕ
code t = t * 10

acts-Behaves : (o : Act) → Behaves o (acts o)
acts-Behaves o = record { alone = λ w. refl; returns = λ t w. refl }

three_turns : total need (5 ∷ 7 ∷ []) ≡ length rounds
unfolding total
three_turns = refl

rounds-AllBehave : AllBehave (plan (length rounds) code need (5 ∷ 7 ∷ [])) rounds
unfolding plan
rounds-AllBehave = (acts-Behaves none, (acts-Behaves (some 70), (acts-Behaves (some 50), refl)))

bare-IsPrepared : IsPrepared bare (5 ∷ 7 ∷ []) (5 ∷ 7 ∷ [])
bare-IsPrepared = record {
  idle = refl;
  no_modules = refl;
  alive = list2-IsList;
  same = λ t. refl;
  unlinked = two_made-unlinked;
  distinct = (refl, (refl, tt));
  tasks = (omega arith, (omega arith, tt));
  few = omega arith;
  lives = λ t h. refl;
  free_to_run = λ t h. refl;
  no_hook = λ t. refl;
  no_callback = λ t. refl;
}

pcaio_completes_example :
    (final : State (Unit {0})) × (es : List Ptr) × (pcaio_run 3 busy answers
        (starts 4 71 0 ∷ map (work 4) rounds)
        1
        (5 ∷ 7 ∷ [])
        bare
      ≡ some (done, final))
    × (final.world.freed ≡ release bare.world.stack es bare.world.freed)
    × Distinct es
    × ((a : Ptr) → has a es ≡ has a (5 ∷ 7 ∷ []))
    × (final.workers ≡ 0)
pcaio_completes_example =
    pcaio_completes 3 4 71 0 busy answers (λ i. 0) rounds code need 1 5 (7 ∷ []) (5 ∷ 7 ∷ []) bare
      busy-Harmless (λ v. refl) answers-Willing willing-Grants willing-Grants bare-IsPrepared
      three_turns rounds-AllBehave
