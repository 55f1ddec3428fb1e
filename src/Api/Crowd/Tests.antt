-- ===== src/Api/Crowd/Tests.antt =====
-- A run of `pcaio` with two workers on a small state.
use pcaio.Prelude.{
  ℕ, ◌*◌, ◌<◌, ◌≡◌, refl, ◌≢◌, ◌⊎◌, none, some, List, [], ◌∷◌, map, arith, Ptr, ◌==◌, if◌then◌else◌,
  done, true,
}
use pcaio.QueueT
use pcaio.QueueT.{Queue}
use pcaio.QueueT.Fifo.{IsQueue}
use pcaio.QueueT.Batch.{pushall-fresh}
use pcaio.QueueT.Pop.{popped, pop-cons}
use pcaio.Task.Life.{release}
use pcaio.Worker.{set_task, set_context}
use pcaio.Worker.Needs.{total}
use pcaio.Worker.Team.{idle, runs, at, Team, takes, stay, go}
use pcaio.Worker.Team.Count.{times}
use pcaio.Worker.Team.Busy.{CanStep}
use pcaio.Master.{State}
use pcaio.Master.Reset.{init-Ready}
use pcaio.Master.Samples
use pcaio.Master.Samples.{two_made, busy, busy-Harmless, willing, willing-Grants, grants-Granted}
use pcaio.Master.Whole.{grown}
use pcaio.Master.Team.{sees, Seen, last}
use pcaio.Api.Run.{Answers, pcaio_run}
use pcaio.Api.Whole.{begun}
use pcaio.Api.Complete.{IsPrepared}
use pcaio.Api.Crowd.Start.{Starter, start_all, team_at}
use pcaio.Api.Crowd.{pcaio_crowd}
use pcaio.Samples.{queue0-IsQueue, list2-IsList}

-- No module is installed. The tasks 5 and 7 are made; 5 gives way once, and 7 returns 70 at once.
abbrev bare : State (Unit {0})
bare = record two_made { modulescount = 0 }

abbrev need : Ptr → ℕ
need t = if t == 5 then 1 else 0

abbrev code : Ptr → ℕ
code t = t * 10

abbrev answers : Answers
answers = record {
  setup = Samples.grants;
  emptyset = 0;
  action = 0;
  context = 0;
  grow = willing;
  shrink = willing;
}

bare-IsPrepared : IsPrepared bare (5 ∷ 7 ∷ []) (5 ∷ 7 ∷ [])
bare-IsPrepared = record {
  idle = refl;
  no_modules = refl;
  alive = list2-IsList;
  same = λ t. refl;
  unlinked = λ a. queue0-IsQueue.loose a refl;
  distinct = (refl, (refl, tt));
  tasks = (omega arith, (omega arith, tt));
  few = omega arith;
  lives = λ t h. refl;
  free_to_run = λ t h. refl;
  no_hook = λ t. refl;
  no_callback = λ t. refl;
}

abbrev workers : List Starter
workers =
    record { thread = 3; landing = 71; err = 0 } ∷ record { thread = 4; landing = 72; err = 0 } ∷ []

abbrev begin : Team
begin = team_at need workers (grown 2 0 willing (begun busy answers 2 (5 ∷ 7 ∷ []) bare))

begin-IsQueue : IsQueue begin.world.taskq (5 ∷ 7 ∷ [])
unfolding grown set_context
begin-IsQueue =
    let (_, ready) =
      init-Ready busy Samples.grants (λ i. 0) 2 bare busy-Harmless grants-Granted refl list2-IsList
        (λ a. queue0-IsQueue.loose a refl) in
    (pushall-fresh 5 (7 ∷ []) ready.queue (refl, (refl, tt)) (omega arith, (omega arith, tt))
      (omega arith)).1

-- The worker 4 takes the task 5, and then the main thread looks.
abbrev taken : Team
taken = record {
  world = set_task 0 4 5 (record begin.world { taskq = popped (QueueT.lock begin.world.taskq) });
  need = need;
  slots = at 3 idle ∷ at 4 (runs 5) ∷ [];
}

looked : Seen code 1 begin (taken.world ∷ []) taken
looked = last (
    go
      (takes (at 3 idle ∷ []) [] 4 5 (popped (QueueT.lock begin.world.taskq)) refl
        (pop-cons true [] begin-IsQueue).0)
      stay)

some_worker : workers ≢ []
some_worker e = cc

pcaio_crowd_example :
    ((pcaio_run 2 busy answers (start_all workers ∷ map sees (taken.world ∷ [])) 2 (5 ∷ 7 ∷ []) bare
        ≡ none)
      × (1 < 3 * total need (5 ∷ 7 ∷ []))
      × CanStep code taken)
    ⊎ ((final : State (Unit {0})) × (order : List Ptr) × (pcaio_run 2 busy answers
            (start_all workers ∷ map sees (taken.world ∷ []))
            2
            (5 ∷ 7 ∷ [])
            bare
          ≡ some (done, final))
        × (final.world.freed ≡ release bare.world.stack order bare.world.freed)
        × ((a : Ptr) → times a order ≡ times a (5 ∷ 7 ∷ []))
        × (final.workers ≡ 0))
pcaio_crowd_example =
    pcaio_crowd 2 busy answers (λ i. 0) workers (taken.world ∷ []) taken code need 2 5 (7 ∷ [])
      (5 ∷ 7 ∷ []) bare busy-Harmless (λ v. refl)
      (record { setup = grants-Granted; emptyset = refl; action = refl }) willing-Grants
      willing-Grants bare-IsPrepared some_worker
      (omega arith, refl, refl, (omega arith, refl, refl, tt)) looked
