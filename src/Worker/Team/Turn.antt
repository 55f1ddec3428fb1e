-- ===== src/Worker/Team/Turn.antt =====
-- The three steps of a worker and one turn of the loop in pcaio/worker.c.
use pcaio.Prelude.{subst, arith, ◌≢◌, ℕ, ◌≡◌, refl, ◌∙◌, List, [], ◌∷◌, ◌++◌, Ptr, null, Tid, true}
use pcaio.QueueT
use pcaio.QueueT.{Queue, got}
use pcaio.World.{World}
use pcaio.Worker.{Round, running, set_task, settle, turn}
use pcaio.Worker.Turn.{entering, turn-got}
use pcaio.Worker.Plan.{Behaves, came_back}
use pcaio.Worker.Needs.{next_act, next_need}
use pcaio.Threadlocal
use pcaio.Worker.Team.Landing.{comes_out-Lands}
use pcaio.Worker.Team.{idle, Slot, at, takes, comes, settles, Steps, go, stay}

-- A turn in which the worker gets a task, stores it, has a context to land in, nothing else happens,
-- and the worker goes on, is the three steps one after the other.
pub turn-Steps :
    (code need : Ptr → ℕ) (ls rs : List Slot) (i : Tid) (r : Round) (t : Ptr) (q : Queue)
    (w v : World)
    → Behaves (next_act code need t) r
    → r.store ≡ 0
    → t ≢ null
    → w.context_key.value i ≢ null
    → QueueT.pop true r.waits w.taskq ≡ got t q
    → QueueT.pop true [] w.taskq ≡ got t q
    → settle t (set_task r.clear i null (came_back (next_act code need t) t (entering i r t w q)))
      ≡ running v
    → (turn i r w ≡ running v)
      × Steps code 3
          (record { world = w; need = need; slots = ls ++ (at i idle ∷ rs) })
          (record { world = v; need = next_need need t; slots = ls ++ (at i idle ∷ rs) })
unfolding set_task Threadlocal.set
turn-Steps code need ls rs i r t q w v g stored live land took takes_now settled =
    let o = next_act code need t in
    let w1 : World = set_task 0 i t (record w { taskq = q }) in
    let settled1 =
      subst
        (λ e.
          settle t
            (set_task r.clear i null (came_back o t (set_task e i t (record w { taskq = q }))))
          ≡ running v)
        stored settled in
    (
      turn-got i r (g.alone w) took (g.returns t (entering i r t w q)) ∙ settled,
      go (takes ls rs i t q refl takes_now) (
          go
            (comes ls rs i t (came_back o t w1) refl
              (comes_out-Lands i o t w1 live (land, ground arith)))
            (go (settles ls rs i r.clear o t v refl settled1) stay)),
    )
