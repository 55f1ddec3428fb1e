-- ===== src/Examples/Tests.antt =====
-- Runs of the programs of examples/ on small states.
use pcaio.Prelude.{ℕ, zero, suc, ◌≡◌, refl, some, [], ◌∷◌, length, List, map, arith, done}
use pcaio.Task.{System}
use pcaio.Worker.{Round}
use pcaio.Worker.Plan.{Act, Behaves, came_back}
use pcaio.Worker.Needs.{AllBehave}
use pcaio.Master.{State}
use pcaio.Master.Samples
use pcaio.Master.Samples.{two_made, busy, busy-Harmless, willing, willing-Grants, grants-Granted}
use pcaio.Master.Work.{work}
use pcaio.Api.Run.{Answers}
use pcaio.Api.Whole.{Willing}
use pcaio.Api.Complete.{starts}
use pcaio.Samples.{queue0, queue0-IsQueue, list0, list0-IsList, world_of}
use pcaio.Modio
use pcaio.Modio.{read, write, retry}
use pcaio.Examples.Tasks.{IsNew}
use pcaio.Examples.Await.{main, task, turns_of, await_completes}
use pcaio.Modio.{ioin}
use pcaio.Prelude.{◌&&◌, failed, ◌<◌, ◌+◌, ◌*◌, ◌==◌, if◌then◌else◌, inr, null}
use pcaio.Timer.{Timers, by_default}
use pcaio.Examples.Asleep
use pcaio.Examples.Asleep.{Nap, Ended}
use pcaio.Examples.Asleep.Naps.{Takes, naps_end}
use pcaio.Examples.Pipe.{Turn, Arrival, encode, produce, producer, consumer, returned, chunk_size}
use pcaio.Examples.Pipe.Letters.{Delivers, Within, lines_match}

abbrev memory : ℕ → System
memory i = record { task = 9; context = 0; stack = 41 }

abbrev at_start : State (Unit {0})
at_start = record two_made { world = world_of queue0 list0; modulescount = 0 }

at_start-IsNew : IsNew at_start.world []
at_start-IsNew = record {
  alive = list0-IsList;
  no_flags = λ t h. refl;
  unlinked = λ t. queue0-IsQueue.loose t refl;
  no_hook = λ t. refl;
  no_callback = λ t. refl;
}

abbrev answers : Answers
answers = record {
  setup = Samples.grants;
  emptyset = 0;
  action = 0;
  context = 0;
  grow = willing;
  shrink = willing;
}

answers-Willing : Willing answers (λ i. 0)
answers-Willing = record { setup = grants-Granted; emptyset = refl; action = refl }

abbrev acts : Act → Round
acts o = record {
  others = λ w. w;
  waits = [];
  store = 0;
  run = λ t w. (0, came_back o t w);
  clear = 0;
}

acts-Behaves : (o : Act) → Behaves o (acts o)
acts-Behaves o = record { alone = λ w. refl; returns = λ t w. refl }

all_act : (os : List Act) → AllBehave os (map acts os)
all_act [] = refl
all_act (o ∷ os) = (acts-Behaves o, all_act os)

await_completes_example :
    (task ≡ (0 ∷ 0 ∷ 0 ∷ 0 ∷ [], 0))
    × (length (map acts (turns_of task)) ≡ 5)
    × (final : State (Unit {0})) × (main memory 80 3 busy answers
          (starts 4 71 0 ∷ map (work 4) (map acts (turns_of task)))
          at_start
        ≡ some (0, final))
    × (final.world.freed ≡ 9 ∷ 41 ∷ [])
    × (final.workers ≡ 0)
await_completes_example =
    await_completes memory 80 3 4 71 0 busy answers (λ i. 0) (map acts (turns_of task)) at_start
      (omega arith, refl, omega arith) (omega arith) at_start-IsNew refl refl busy-Harmless
      (λ v. refl) answers-Willing willing-Grants willing-Grants (all_act (turns_of task))

abbrev gives : ℕ → Modio.Round
gives n = record { ret = some n; errno = 0; await = done }

abbrev same_bytes : ℕ → ℕ → List ℕ
same_bytes zero b = []
same_bytes (suc n) b = b ∷ same_bytes n b

-- The system gives two bytes, takes both, and then gives none.
abbrev turns : List Turn
turns =
    record { input = gives 2 ∷ []; bytes = same_bytes chunk_size 130; output = gives 2 ∷ [] }
    ∷ record { input = gives 0 ∷ []; bytes = same_bytes chunk_size 0; output = [] }
    ∷ []

abbrev arrivals : List Arrival
arrivals =
    record { input = gives 2 ∷ []; bytes = 97 ∷ 97 ∷ [] }
    ∷ record { input = gives 0 ∷ []; bytes = [] }
    ∷ []

delivered : Delivers 1 3 (producer 1 (some 5) 4 turns).0 arrivals
unfolding producer produce read write retry encode
delivered = (refl, refl, refl)

lines_match_example :
    Within 16 (producer 1 (some 5) 4 turns).0
    × (consumer 1 3 arrivals ≡ ((producer 1 (some 5) 4 turns).0, returned (some 0), 3 ∷ []))
lines_match_example = lines_match 1 5 4 3 turns arrivals (refl, (refl, tt)) delivered

-- No timer is there, the timer takes only the time that it is to be set to, and the second wait of the task
-- fails.
abbrev no_timers : Timers
no_timers = record { fd = λ t. 0; iomod = λ t. null; opened = []; freed = [] }

abbrev fails_second : ℕ → Nap
fails_second j = record {
  settime = λ fd sec nsec.
      if fd == 6 && (sec == 0 && nsec == (50 + j * 100) * 1000000) then done else failed;
  answer = λ a. if j == 1 then failed else done;
  errno = 0;
}

times_taken : (j : ℕ) → j < 2 → Takes fails_second 6 j
times_taken j l = ground arith

naps_end_example :
    (e : Ended) × (Asleep.task (some 6) 90 fails_second no_timers ≡ some e)
    × (e.relaxes ≡ 0 ∷ [])
    × (e.waits ≡ (50, by_default 6 ioin) ∷ (150, by_default 6 ioin) ∷ [])
    × (e.code ≡ 0)
    × (e.timers.opened ≡ [])
    × (e.timers.freed ≡ 90 ∷ [])
naps_end_example =
    naps_end 6 90 fails_second 1 no_timers refl (omega arith) times_taken (omega arith)
      (λ j l. ground arith) (inr refl)
