-- ===== src/Master/Work.antt =====
-- The main loop of pcaio/master.c while one worker (pcaio/worker.c) runs its tasks.
use pcaio.Prelude.{
  ℕ, ◌≡◌, refl, sym, subst, ap, ap₂, ◌∙◌, ◌≢◌, Bool, true, false, List, [], ◌∷◌, map, arith,
  if◌then◌else◌, Ptr, Tid, length,
}
use pcaio.World.{World}
use pcaio.Task.Life.{release}
use pcaio.Worker.{Round, Outcome, running, asleep, exited, turn}
use pcaio.Worker.Plan.{queue_after, alive_after}
use pcaio.Worker.Needs.{
  next_act, next_need, plan, ended_in, total, total-turn, AllBehave, IsWorking, none_alive,
  turn-works, release-after,
}
use pcaio.Master.{State, Callbacks, Looped, ended, goes_on, tick_all, timeout_long, main_loop}
use pcaio.Master.Panic.{AllPanicked, tick_all-panicked}

-- What a worker leaves of what all threads share.
abbrev pub shared : Outcome → World
shared (running w) = w
shared (asleep w) = w
shared (exited code w) = w

-- One turn of the worker in the thread `thread`, between two rounds of the main loop.
abbrev pub work : {M : Type 0} → Tid → Round → State M → State M
work thread r s = record s { world = shared (turn thread r s.world) }

-- A round of the main loop from its condition on, and the rounds behind it.
abbrev loop_on : {M : Type 0} → Callbacks M → List (State M → State M) → Bool → State M → Looped M
loop_on cb rounds any s =
    let (any1, s2) = tick_all cb any s in if goes_on s then main_loop cb rounds any1 s2 else ended s

pub tick_all-bare :
    {M : Type 0} (cb : Callbacks M) (any : Bool) (s : State M)
    → s.modulescount ≡ 0
    → ((v : State M) → cb.sleep timeout_long v ≡ v)
    → tick_all cb any s ≡ (false, s)
tick_all-bare cb any s bare sleeps =
    tick_all-panicked cb any s (λ i h. absurd (omega arith))
      (λ v p. subst AllPanicked (sym (sleeps v)) p)
    ∙ ap (λ (v : State _). (false, v)) (awake any)
  where
    awake : (b : Bool) → (if b then s else cb.sleep timeout_long s) ≡ s
    awake true = refl
    awake false = sleeps s

pub alive_count :
    {w : World} {x : Ptr} {xs zs : List Ptr} → IsWorking w (x ∷ xs) zs → w.tasks.count ≢ 0
alive_count {x} {zs = []} p = absurd (let wrong = p.same x in ground arith)
alive_count {zs = z ∷ zs} p = omega (arith, p.plain.alive.counted)

-- The main loop goes on while tasks wait, and ends with the last of them.
pub loop_on-works :
    {M : Type 0} (cb : Callbacks M) (thread : Tid) (rs : List Round) (code need : Ptr → ℕ)
    (any : Bool) (s : State M) (xs zs : List Ptr)
    → s.modulescount ≡ 0
    → ((v : State M) → cb.sleep timeout_long v ≡ v)
    → s.cancel ≡ false
    → IsWorking s.world xs zs
    → total need xs ≡ length rs
    → AllBehave (plan (length rs) code need xs) rs
    → (v : World) × (loop_on cb (map (work thread) rs) any s ≡ ended (record s { world = v }))
      × IsWorking v [] []
      × (v.freed ≡ release s.world.stack (ended_in (length rs) code need xs) s.world.freed)
unfolding main_loop plan ended_in total release
loop_on-works cb thread [] code need any s [] zs bare sleeps runs p e g =
    let over = none_alive p in
    let stops : goes_on s ≡ false = ground (arith, over.plain.alive.counted) in
    (s.world, rw stops refl, over, refl)
loop_on-works cb thread (r ∷ rs) code need any s [] zs bare sleeps runs p e g = absurd (omega arith)
loop_on-works cb thread [] code need any s (x ∷ xs) zs bare sleeps runs p e g = absurd (omega arith)
loop_on-works cb thread (r ∷ rs) code need any s (x ∷ xs) zs bare sleeps runs p e g =
    let o = next_act code need x in
    let es = ended_in (length rs) code (next_need need x) (queue_after o x xs) in
    let (v, turned, served, works) = turn-works thread o r s.world g.0 p in
    let (u, ran, over, freed) =
      loop_on-works cb thread rs code (next_need need x) false (record s { world = v })
        (queue_after o x xs) (alive_after o x zs) bare sleeps runs works
        (omega (arith, total-turn code need x xs p.plain.queue.distinct.0)) g.1 in
    let on : goes_on s ≡ true = ground (arith, alive_count p) in
    (
      u,
      rw (on, tick_all-bare cb any s bare sleeps, turned) ran,
      over,
      freed
          ∙ ap₂ (λ (k : Ptr → Ptr) (l : List Ptr). release k es l) served.stack served.freed
          ∙ release-after o x es s.world,
    )
