-- ===== src/Master/Tests.antt =====
-- Runs of the main thread on small states.
use pcaio.Prelude.{◌≡◌, inr, refl, false, true, some, [], ◌∷◌, arith, done}
use pcaio.Master.{State, tick_all, timeout_short}
use pcaio.Master.Modules.{tick_list, tick_all-installed}
use pcaio.Master.Setup.{Setup, init, deinit}
use pcaio.Master.Reset.{Ready, Undone, init-Undone}
use pcaio.Master.Restart.{init-deinit}
use pcaio.Master.Samples.{two_made, busy, busy-Harmless, grants, grants-Granted}
use pcaio.Samples.{queue0, queue0-IsQueue, list0, list0-IsList, world_of}

tick_all-installed_example :
    tick_all busy true two_made ≡ tick_list busy timeout_short (30 ∷ []) false two_made
tick_all-installed_example =
    tick_all-installed busy true two_made (λ m timeout s. (refl, refl)) (omega arith) (omega arith)

-- The second key is refused.
abbrev no_key : Setup
no_key = record { threads = some (λ i. 0); mutex = 0; task_key = 0; context_key = 11 }

init-Undone_example : Undone two_made (init busy no_key 4 two_made)
init-Undone_example = init-Undone busy no_key 4 two_made (inr (inr (inr (omega arith)))) refl refl

-- All tasks have ended.
abbrev none_left : State (Unit {0})
none_left = record two_made { world = world_of queue0 list0 }

init-deinit_example :
    ((init busy grants 4 (deinit busy none_left).1).0 ≡ done)
    × Ready 4 [] (init busy grants 4 (deinit busy none_left).1).1
    × ((init busy grants 4 (deinit busy none_left).1).1.modulescount ≡ 0)
init-deinit_example =
    init-deinit busy grants (λ i. 0) 4 none_left busy-Harmless grants-Granted list0-IsList
      queue0-IsQueue
