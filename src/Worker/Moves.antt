-- ===== src/Worker/Moves.antt =====
-- What each step of the workers (pcaio/worker.c) and of `pcaio_schedule` does to the tasks that the
-- workers have.
use pcaio.Prelude.{
  suc, ◌+◌, ◌^◌, ◌≤◌, ◌<◌, ◌≡◌, sym, ap, subst, ◌∙◌, ◌≢◌, ◌⊎◌, inl, inr, true, false, List, [], ◌∷◌,
  ◌++◌, arith, ◌==◌, is_null, Ptr, null, Tid, update, length, has, Bool-cases, has-append,
}
use pcaio.QueueT
use pcaio.QueueT.{Queue, got, empty, waiting}
use pcaio.QueueT.Fifo.{IsQueue, push-outside, push_refines, enqueue}
use pcaio.QueueT.Pop.{pop-cons}
use pcaio.World
use pcaio.World.{World, schedule}
use pcaio.Task
use pcaio.Worker.{Outcome, running, asleep, exited, settle}
use pcaio.Worker.Turn.{has_ended, is_held, settle-ended, settle-held, settle-ready}
use pcaio.Worker.Crew.{Phase, idle, runs, Crew}

-- The queue holds `xs`, a task that has the processor is not in it, and no two workers have the same
-- task.
pub record Exclusive (c : Crew) (xs : List Ptr) : Type 0 where
  pub queue : IsQueue c.world.taskq xs
  pub live : (i : Tid) (t : Ptr) → c.phase i ≡ runs t → t ≢ null
  pub outside : (i : Tid) (t : Ptr) → c.phase i ≡ runs t → has t xs ≡ false
  pub alone : (i j : Tid) (t : Ptr) → c.phase i ≡ runs t → c.phase j ≡ runs t → i ≡ j

-- What a phase and a reply of `pop` hold.
abbrev task_of : Phase → Ptr
task_of idle = null
task_of (runs t) = t

abbrev got_task : QueueT.Popped → Ptr
got_task (got t q) = t
got_task (empty q) = null
got_task (waiting q) = null

abbrev queue_of : QueueT.Popped → Queue
queue_of (got t q) = q
queue_of (empty q) = q
queue_of (waiting q) = q

abbrev pub world_in : Outcome → World
world_in (running v) = v
world_in (asleep v) = v
world_in (exited code v) = v

-- Who runs `u` after one worker has changed its phase.
update-runs :
    (phase : Tid → Phase) (i j : Tid) (p : Phase) (u : Ptr)
    → update phase i p j ≡ runs u
    → ((i ≡ j) × (p ≡ runs u)) ⊎ (phase j ≡ runs u)
update-runs phase i j p u e = elim (Bool-cases (i == j)) [
  | inl same ↦ inl (ground arith, ground arith)
  | inr other ↦ inr (ground arith)
]

idle_only : (u : Ptr) → idle ≢ runs u
idle_only u e = cc

enter-Exclusive :
    {c : Crew} {x : Ptr} {ys : List Ptr} (i : Tid) (q : Queue)
    → Exclusive c (x ∷ ys)
    → IsQueue q ys
    → x ≢ null
    → Exclusive
        (record c { world = record c.world { taskq = q }; phase = update c.phase i (runs x) })
        ys
enter-Exclusive {c} {x} {ys} i q ex is n = record {
  queue = is;
  live = λ j u e. elim (update-runs c.phase i j (runs x) u e) [
    | inl (same, now) ↦ subst (λ a. a ≢ null) (ap task_of now) n
    | inr before ↦ ex.live j u before
  ];
  outside = λ j u e. elim (update-runs c.phase i j (runs x) u e) [
    | inl (same, now) ↦ subst (λ a. has a ys ≡ false) (ap task_of now) ex.queue.distinct.0
    | inr before ↦ ground (arith, ex.outside j u before)
  ];
  alone = λ j k u e e'. elim (update-runs c.phase i j (runs x) u e) [
    | inl (same, now) ↦ elim (update-runs c.phase i k (runs x) u e') [
      | inl (same', now') ↦ sym same ∙ same'
      | inr before ↦ absurd (ground (arith, ex.outside k u before, ap task_of now))
    ]
    | inr before ↦ elim (update-runs c.phase i k (runs x) u e') [
      | inl (same', now') ↦ absurd (ground (arith, ex.outside j u before, ap task_of now'))
      | inr before' ↦ ex.alone j k u before before'
    ]
  ];
}

-- A `pop` on an empty queue gives no task.
pop-sleeps :
    {q : Queue} → IsQueue q [] → QueueT.pop true [] q ≡ waiting (QueueT.unlock (QueueT.lock q))
unfolding QueueT.pop QueueT.await_head
pop-sleeps is = rw is.chain

-- A `pop` that gives a task gives the first one, and leaves the others.
pub pop-head :
    {q0 : Queue} {xs : List Ptr} (t : Ptr) (q : Queue)
    → IsQueue q0 xs
    → QueueT.pop true [] q0 ≡ got t q
    → (ys : List Ptr) × (xs ≡ t ∷ ys) × IsQueue q ys × (t ≢ null)
pop-head {xs = []} t q is took = absurd (let nothing = sym (pop-sleeps is) ∙ took in cc)
pop-head {xs = x ∷ ys} t q is took =
    let (pops, left) = pop-cons true [] is in
    let same = sym pops ∙ took in
    let first : x ≡ t = ap got_task same in
    (
      ys,
      ap (λ a. a ∷ ys) first,
      subst (λ r. IsQueue r ys) (ap queue_of same) left,
      subst (λ a. a ≢ null) first (ground (arith, is.chain)),
    )

-- A worker takes a task.
pub takes-Exclusive :
    {c : Crew} {xs : List Ptr} (i : Tid) (t : Ptr) (q : Queue)
    → Exclusive c xs
    → QueueT.pop true [] c.world.taskq ≡ got t q
    → (ys : List Ptr) × (length ys ≤ length xs)
      × Exclusive
          (record c { world = record c.world { taskq = q }; phase = update c.phase i (runs t) })
          ys
takes-Exclusive {c} {xs} i t q ex took =
    let (ys, cut, is, n) = pop-head t q ex.queue took in
    let size : length xs ≡ suc (length ys) = ap length cut in
    (ys, omega arith, enter-Exclusive i q (subst (Exclusive c) cut ex) is n)

update-idle :
    (phase : Tid → Phase) (i j : Tid) (u : Ptr)
    → update phase i idle j ≡ runs u
    → (i ≢ j) × (phase j ≡ runs u)
update-idle phase i j u e = elim (Bool-cases (i == j)) [
  | inl same ↦ absurd (let wrong : idle ≡ runs u = ground arith in idle_only u wrong)
  | inr other ↦ (ground arith, ground arith)
]

-- Where the task is once it is settled: nowhere, or at the end of the queue.
pub settle-IsQueue :
    (t : Ptr) (w v : World) {xs : List Ptr}
    → IsQueue w.taskq xs
    → t ≢ null
    → has t xs ≡ false
    → length xs + 1 < 2 ^ 64
    → settle t w ≡ running v
    → IsQueue v.taskq xs ⊎ IsQueue v.taskq (xs ++ (t ∷ []))
unfolding Task.free
settle-IsQueue t w v {xs} q n out room back = elim (Bool-cases (has_ended w t)) [
  | inl ended ↦
      let same = ap world_in (sym (settle-ended t w ended) ∙ back) in
      let kept : (Task.free t w).taskq ≡ w.taskq = ground arith in
      inl (subst (λ (u : World). IsQueue u.taskq xs) same (subst (λ r. IsQueue r xs) (sym kept) q))
  | inr lives ↦ elim (Bool-cases (is_held w t)) [
    | inl held ↦
        let same = ap world_in (sym (settle-held t w lives held) ∙ back) in
        inl (subst (λ (u : World). IsQueue u.taskq xs) same q)
    | inr free ↦
        let (accepted, is) = push-outside t q n out room in
        let same = ap world_in (sym (settle-ready t w lives free accepted) ∙ back) in
        inr (subst (λ (u : World). IsQueue u.taskq (xs ++ (t ∷ []))) same is)
  ]
]

-- A worker settles the task that it has.
pub leave-Exclusive :
    {c : Crew} {xs : List Ptr} (i : Tid) (t : Ptr) (v : World)
    → Exclusive c xs
    → c.phase i ≡ runs t
    → IsQueue v.taskq xs
    → Exclusive (record c { world = v; phase = update c.phase i idle }) xs
leave-Exclusive {c} i t v ex has_it is = record {
  queue = is;
  live = λ j u e. ex.live j u (update-idle c.phase i j u e).1;
  outside = λ j u e. ex.outside j u (update-idle c.phase i j u e).1;
  alone =
      λ j k u e e'. ex.alone j k u (update-idle c.phase i j u e).1 (update-idle c.phase i k u e').1;
}

pub rejoin-Exclusive :
    {c : Crew} {xs : List Ptr} (i : Tid) (t : Ptr) (v : World)
    → Exclusive c xs
    → c.phase i ≡ runs t
    → IsQueue v.taskq (xs ++ (t ∷ []))
    → Exclusive (record c { world = v; phase = update c.phase i idle }) (xs ++ (t ∷ []))
rejoin-Exclusive {c} {xs} i t v ex has_it is = record {
  queue = is;
  live = λ j u e. ex.live j u (update-idle c.phase i j u e).1;
  outside = λ j u e.
      let (other, before) = update-idle c.phase i j u e in
      elim (Bool-cases (u == t)) [
        | inl same ↦
            let mine : c.phase i ≡ runs u = has_it ∙ ap runs (ground arith) in
            absurd (other (ex.alone i j u mine before))
        | inr differs ↦ ground (arith, has-append u xs (t ∷ []), ex.outside j u before)
      ];
  alone =
      λ j k u e e'. ex.alone j k u (update-idle c.phase i j u e).1 (update-idle c.phase i k u e').1;
}

-- Somebody schedules a task that no worker has.
pub schedule-Exclusive :
    {c : Crew} {xs : List Ptr} (t : Ptr)
    → Exclusive c xs
    → t ≢ null
    → ((i : Tid) → c.phase i ≢ runs t)
    → length xs + 1 < 2 ^ 64
    → Exclusive (record c { world = (schedule t c.world).1 }) (enqueue t xs).1
unfolding schedule World.enqueue enqueue
schedule-Exclusive {c} {xs} t ex n nobody room =
    let given : is_null t ≡ false = ground arith in
    let (_, is, _) = push_refines t ex.queue n room in
    rw given (record {
      queue = is;
      live = ex.live;
      outside = λ j u e. elim (Bool-cases (u == t)) [
        | inl same ↦ absurd (nobody j (e ∙ ap runs (ground arith)))
        | inr differs ↦ ground (arith, has-append u xs (t ∷ []), ex.outside j u e)
      ];
      alone = ex.alone;
    })
