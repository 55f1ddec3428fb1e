-- ===== src/Worker/Exclusive.antt =====
-- Several workers (pcaio/worker.c) in any order: which worker has which task.
use pcaio.Prelude.{
  ℕ, ◌+◌, ◌^◌, ◌≤◌, ◌<◌, ◌≡◌, refl, sym, subst, inl, inr, true, false, List, [], ◌∷◌, ◌++◌, arith,
  is_null, Ptr, Tid, update, length, length-append, sizes,
}
use pcaio.QueueT
use pcaio.QueueT.{Queue, got, empty, waiting}
use pcaio.QueueT.Fifo.{IsQueue, push-outside, enqueue}
use pcaio.QueueT.Pop.{popped, pop-cons}
use pcaio.World
use pcaio.World.{World, schedule}
use pcaio.Worker.Crew.{
  idle, runs, Crew, Step, takes, settles, works, schedules, Timely, Steps, stay, go,
}
use pcaio.Worker.Moves.{
  Exclusive, takes-Exclusive, settle-IsQueue, leave-Exclusive, rejoin-Exclusive, schedule-Exclusive,
}

length-enqueue_one : (t : Ptr) (xs : List Ptr) → length (enqueue t xs).1 ≤ length xs + 1
unfolding enqueue
length-enqueue_one t xs = ground (arith, length-append xs (t ∷ []))

Step-Exclusive :
    {c c' : Crew} {xs : List Ptr} (s : Step c c')
    → Timely s
    → Exclusive c xs
    → length xs + 1 < 2 ^ 64
    → (ys : List Ptr) × (length ys ≤ length xs + 1) × Exclusive c' ys
Step-Exclusive (takes i t q free took) timely ex room =
    let (ys, few, ex') = takes-Exclusive i t q ex took in (ys, omega arith, ex')
Step-Exclusive {c} {xs} (settles i t v has_it back) timely ex room =
    elim (settle-IsQueue t c.world v ex.queue (ex.live i t has_it) (ex.outside i t has_it) room
      back) [
        | inl is ↦ (xs, omega arith, leave-Exclusive i t v ex has_it is)
        | inr is ↦ (xs ++ (t ∷ []), grind sizes, rejoin-Exclusive i t v ex has_it is)
      ]
Step-Exclusive {xs} (works i t v has_it same) timely ex room = (
  xs,
  omega arith,
  record {
    queue = subst (λ r. IsQueue r xs) (sym same) ex.queue;
    live = ex.live;
    outside = ex.outside;
    alone = ex.alone;
  },
)
Step-Exclusive {xs} (schedules t n) timely ex room =
    ((enqueue t xs).1, length-enqueue_one t xs, schedule-Exclusive t ex n timely room)

-- From a state in which no two workers have the same task and none that a worker has stands in the
-- queue, whatever the order in which several workers take tasks from the queue, run and settle
-- them, and in which tasks are scheduled that no worker has: it stays so, as long as the counter
-- of the queue has room.
pub Steps-Exclusive :
    {n : ℕ} {c c' : Crew} {xs : List Ptr}
    → Steps n c c'
    → Exclusive c xs
    → length xs + n < 2 ^ 64
    → (ys : List Ptr) × Exclusive c' ys
Steps-Exclusive {xs} stay ex room = (xs, ex)
Steps-Exclusive {xs} (go s timely rest) ex room =
    let (ys, few, ex') = Step-Exclusive s timely ex (omega arith) in
    Steps-Exclusive rest ex' (omega arith)

-- With an empty queue, a task that has the processor and is scheduled all the same can be taken by
-- an idle worker in the next step: two workers have it then.
pub woken_early :
    {c : Crew} (i j : Tid) (t : Ptr)
    → Exclusive c []
    → c.phase i ≡ runs t
    → c.phase j ≡ idle
    → (c1 : Crew) × (c2 : Crew) × Step c c1
      × Step c1 c2
      × (c2.phase i ≡ runs t)
      × (c2.phase j ≡ runs t)
unfolding schedule World.enqueue
woken_early {c} i j t ex has_it free =
    let n = ex.live i t has_it in
    let (accepted, is) = push-outside t ex.queue n refl (omega arith) in
    let given : is_null t ≡ false = ground arith in
    let c1 : Crew = record c { world = (schedule t c.world).1 } in
    let waits : IsQueue c1.world.taskq (t ∷ []) = rw given is in
    let pops = (pop-cons true [] waits).0 in
    (
      c1,
      record c1 {
        world = record c1.world { taskq = popped (QueueT.lock c1.world.taskq) };
        phase = update c1.phase j (runs t);
      },
      schedules t n,
      takes j t (popped (QueueT.lock c1.world.taskq)) free pops,
      ground arith,
      ground arith,
    )
