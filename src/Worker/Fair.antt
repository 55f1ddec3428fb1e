-- ===== src/Worker/Fair.antt =====
-- The worker of pcaio/worker.c on tasks that only give way.
use Prim.Native.Nat.{bit_and}
use pcaio.Prelude.{
  ℕ, ◌≡◌, refl, sym, ap, null, Tid, subst, ◌∙◌, true, false, not, List, [], ◌∷◌, ◌++◌, arith, ◌==◌,
  Ptr, length, append_assoc, append-nil,
}
use pcaio.QueueT
use pcaio.QueueT.{got, empty, waiting}
use pcaio.QueueT.Fifo.{IsQueue, push-outside}
use pcaio.QueueT.Pop.{popped, pop-cons}
use pcaio.World.{World}
use pcaio.Worker.{Round, running, asleep, exited, set_task, set_context, turn, turns, worker}
use pcaio.Worker.Turn.{settle-ready, entering, turn-got}
use pcaio.World.{task_terminated, task_noschedule}

-- A round in which nothing happens but that the task gives way.
pub record GivesWay (r : Round) : Type 0 where
  pub alone : (w : World) → r.others w ≡ w
  pub returns : (t : Ptr) (w : World) → r.run t w ≡ (0, w)

abbrev pub AllGiveWay : List Round → Type 0
AllGiveWay [] = Unit {0}
AllGiveWay (r ∷ rs) = GivesWay r × AllGiveWay rs

-- No task has ended, and none is held.
abbrev pub Quiet : (Ptr → ℕ) → Type 0
Quiet flags =
    (t : Ptr)
    → (not (bit_and (flags t) task_terminated == 0) ≡ false)
      × (not (bit_and (flags t) task_noschedule == 0) ≡ false)

-- The tasks that the worker switches to, in order.
unfoldable pub entered : Tid → List Round → World → List Ptr
entered thread [] w = []
entered thread (r ∷ rs) w =
    let rest : List Ptr = elim (turn thread r w) [
      | running w1 ↦ entered thread rs w1
      | asleep w1 ↦ []
      | exited code w1 ↦ []
    ] in
    elim (QueueT.pop true r.waits (r.others w).taskq) [
      | got t q ↦ t ∷ rest
      | empty q ↦ []
      | waiting q ↦ []
    ]

-- One turn enters the first task and puts it behind the others.
turn-rotates :
    (thread : Tid) (r : Round) (w : World) {x : Ptr} {xs : List Ptr}
    → GivesWay r
    → Quiet w.flags
    → IsQueue w.taskq (x ∷ xs)
    → (v : World) × (turn thread r w ≡ running v)
      × IsQueue v.taskq (xs ++ (x ∷ []))
      × (v.flags ≡ w.flags)
      × (QueueT.pop true r.waits (r.others w).taskq ≡ got x (popped (QueueT.lock w.taskq)))
unfolding set_task
turn-rotates thread r w {x} {xs} g quiet is =
    let (takes, left) = pop-cons true r.waits is in
    let w1 : World =
      set_task r.clear thread null (entering thread r x w (popped (QueueT.lock w.taskq))) in
    let (accepted, holds) =
      push-outside x left (ground (arith, is.chain)) (is.distinct.0) (omega (arith, is.small)) in
    (
      record w1 { taskq = (QueueT.push x w1.taskq).1 },
      turn-got thread r (g.alone w) takes
            (g.returns x (entering thread r x w (popped (QueueT.lock w.taskq))))
          ∙ settle-ready x w1 (quiet x).0 (quiet x).1 accepted,
      holds,
      refl,
      ap (λ (u : World). QueueT.pop true r.waits u.taskq) (g.alone w) ∙ takes,
    )

-- In as many turns as there are tasks before it, the worker brings the rest to the front.
turns-rotates :
    (thread : Tid) (rs : List Round) (w : World) (xs ys : List Ptr)
    → AllGiveWay rs
    → Quiet w.flags
    → IsQueue w.taskq (xs ++ ys)
    → length rs ≡ length xs
    → (v : World) × (turns thread rs w ≡ running v)
      × IsQueue v.taskq (ys ++ xs)
      × (v.flags ≡ w.flags)
      × (entered thread rs w ≡ xs)
unfolding turns entered
turns-rotates thread [] w [] ys g quiet is e = (w, refl, rw append-nil is, refl, refl)
turns-rotates thread [] w (x ∷ xs) ys g quiet is e = absurd (omega arith)
turns-rotates thread (r ∷ rs) w [] ys g quiet is e = absurd (omega arith)
turns-rotates thread (r ∷ rs) w (x ∷ xs) ys g quiet is e =
    let (w1, turned, holds, same, takes) = turn-rotates thread r w g.0 quiet is in
    let moved = subst (IsQueue w1.taskq) (append_assoc xs ys (x ∷ [])) holds in
    let (v, ran, holds', same', log) =
      turns-rotates thread rs w1 xs (ys ++ (x ∷ [])) g.1 (subst Quiet (sym same) quiet) moved
        (omega arith) in
    (
      v,
      rw (turned, turns) ran,
      subst (IsQueue v.taskq) (append_assoc ys (x ∷ []) xs) holds',
      same' ∙ same,
      rw (takes, turned, entered) (ap (λ (l : List Ptr). x ∷ l) log),
    )

-- In as many turns as tasks wait, none of them ended or held, and in which nothing happens but
-- that each task gives way, a worker enters each of them once, in the order of the queue, and then
-- they wait in the same order.
pub worker_round_robin :
    (thread : Tid) (landing : Ptr) (err : ℕ) (rs : List Round) (w : World) (xs : List Ptr)
    → AllGiveWay rs
    → Quiet w.flags
    → IsQueue w.taskq xs
    → length rs ≡ length xs
    → (v : World) × (worker thread landing err rs w ≡ running v)
      × IsQueue v.taskq xs
      × (entered thread rs (set_context err thread landing w) ≡ xs)
unfolding worker set_context
worker_round_robin thread landing err rs w xs g quiet is e =
    let (v, ran, holds, _, log) =
      turns-rotates thread rs (set_context err thread landing w) xs [] g quiet
        (subst (IsQueue w.taskq) (sym (append-nil xs)) is) e in
    (v, ran, holds, log)
