-- ===== src/Gather/Tests.antt =====
-- Runs of the gather on small states.
use pcaio.Prelude.{◌≡◌, refl, [], ◌∷◌, arith, null, ◌≢◌, Status, done}
use pcaio.World.{World}
use pcaio.Relax
use pcaio.Threadlocal
use pcaio.Gather.{gather}
use pcaio.Gather.Start.{Arranged, gather-waits}
use pcaio.Gather.Fail.{Abandoned, gather_abandons}
use pcaio.Samples.{queue1, queue1-IsQueue, list0, world_of}

-- The task 5 waits in the queue, and the thread runs the task 9.
abbrev one_waits : World
one_waits = world_of queue1 list0

abbrev comes_back : World → Status × World
comes_back w = (done, w)

live : Relax.self 3 one_waits ≢ null
unfolding Relax.self Threadlocal.get
live = omega arith

gather-waits_example :
    (v : World) × (gather 60 3 0 comes_back (7 ∷ 8 ∷ []) one_waits ≡ comes_back v)
    × Arranged 60 3 (7 ∷ 8 ∷ []) (5 ∷ []) one_waits v
gather-waits_example =
    gather-waits 60 3 comes_back (7 ∷ 8 ∷ []) one_waits queue1-IsQueue
      (omega arith, (omega arith, tt)) (refl, (refl, tt)) (refl, (refl, tt)) (omega arith)
      (omega arith) live (omega arith) (λ v. refl)

-- The second task of the group waits already.
gather_abandons_example :
    Abandoned 60 5 (7 ∷ []) (5 ∷ []) one_waits (gather 60 3 0 comes_back (7 ∷ 5 ∷ 8 ∷ []) one_waits)
gather_abandons_example =
    gather_abandons 60 3 comes_back (7 ∷ []) 5 (8 ∷ []) one_waits queue1-IsQueue (omega arith, tt)
      (refl, tt) (refl, tt) (omega arith) (omega arith) refl
