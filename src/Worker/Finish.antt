-- ===== src/Worker/Finish.antt =====
-- The worker of pcaio/worker.c runs its tasks to their end.
use pcaio.Prelude.{ℕ, ◌≡◌, refl, ap₂, ◌∙◌, List, [], ◌∷◌, arith, Ptr, Tid, length, has, Distinct}
use pcaio.QueueT.Fifo.{IsQueue}
use pcaio.ListT.Refine.{IsList}
use pcaio.World.{World}
use pcaio.Task.Life.{release}
use pcaio.Worker.{Round, running, set_context, turns, worker}
use pcaio.Worker.Plan.{queue_after, alive_after}
use pcaio.Worker.Needs.{
  next_act, next_need, plan, ended_in, total, total-turn, AllBehave, IsWorking,
  set_context-IsWorking, none_alive, turn-works, release-after, ended-members,
}

turns-finish :
    (thread : Tid) (rs : List Round) (code need : Ptr → ℕ) (w : World) (xs zs : List Ptr)
    → IsWorking w xs zs
    → total need xs ≡ length rs
    → AllBehave (plan (length rs) code need xs) rs
    → (v : World) × (turns thread rs w ≡ running v)
      × IsWorking v [] []
      × (v.freed ≡ release w.stack (ended_in (length rs) code need xs) w.freed)
unfolding turns plan ended_in total release
turns-finish thread [] code need w [] zs p e g = (w, refl, none_alive p, refl)
turns-finish thread [] code need w (x ∷ xs) zs p e g = absurd (omega arith)
turns-finish thread (r ∷ rs) code need w [] zs p e g = absurd (omega arith)
turns-finish thread (r ∷ rs) code need w (x ∷ xs) zs p e g =
    let o = next_act code need x in
    let es = ended_in (length rs) code (next_need need x) (queue_after o x xs) in
    let (v, turned, served, works) = turn-works thread o r w g.0 p in
    let (u, ran, over, freed) =
      turns-finish thread rs code (next_need need x) v (queue_after o x xs) (alive_after o x zs)
        works (omega (arith, total-turn code need x xs p.plain.queue.distinct.0)) g.1 in
    (
      u,
      rw (turned, turns) ran,
      over,
      freed
          ∙ ap₂ (λ (k : Ptr → Ptr) (l : List Ptr). release k es l) served.stack served.freed
          ∙ release-after o x es w,
    )

-- A worker on the tasks `xs`, which are all that are alive, of which each gives way as often as
-- `need` says and then returns, and nothing else happens: after as many turns as they take together
-- every task has ended and was freed with its stack, each once, in the order in which they ended; no
-- task waits, and none is alive.
pub worker_finishes :
    (thread : Tid) (landing : Ptr) (err : ℕ) (rs : List Round) (code need : Ptr → ℕ) (w : World)
    (xs zs : List Ptr)
    → IsWorking w xs zs
    → total need xs ≡ length rs
    → AllBehave (plan (length rs) code need xs) rs
    → (v : World) × (es : List Ptr) × (worker thread landing err rs w ≡ running v)
      × IsQueue v.taskq []
      × IsList v.tasks []
      × (v.freed ≡ release w.stack es w.freed)
      × Distinct es
      × ((t : Ptr) → has t es ≡ has t xs)
unfolding worker set_context
worker_finishes thread landing err rs code need w xs zs p e g =
    let w1 : World = set_context err thread landing w in
    let ready = set_context-IsWorking err thread landing w p in
    let (v, ran, over, freed) = turns-finish thread rs code need w1 xs zs ready e g in
    let (once, all) = ended-members (length rs) code need xs p.plain.queue.distinct e in
    (
      v,
      ended_in (length rs) code need xs,
      ran,
      over.plain.queue,
      over.plain.alive,
      freed,
      once,
      all,
    )
