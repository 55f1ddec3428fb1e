-- ===== src/Modepoll/Tick.antt =====
-- `_tick` of pcaio/modepoll.c: which events leave the list, and which tasks are queued.
use pcaio.Prelude.{
  ℕ, suc, ◌+◌, ◌/◌, ◌^◌, ◌≤◌, ◌<◌, ◌≡◌, refl, ap, subst, ◌≢◌, true, false, some, List, [], ◌∷◌,
  ◌++◌, map, append_assoc, append-nil, arith, ◌==◌, ltb, Ptr, null, is_null, update, done, length,
  sizes, has, remove, Apart-snoc,
}
use pcaio.World.{schedule, enqueue}
use pcaio.QueueT.Fifo.{IsQueue, push-outside}
use pcaio.ListT
use pcaio.ListT.{DList}
use pcaio.ListT.Refine.{IsList}
use pcaio.ListT.Delete.{delete_refines}
use pcaio.IoEvent.{IoEvents, NewTasks, set_events}
use pcaio.Master.{TickStatus, pms_again}
use pcaio.Modepoll.{Epoll, Came, wake, deliver, WaitCall, tick}

-- The events that are reported, in order, and the list without them.
abbrev pub reported : List Came → List Ptr
reported cs = map (λ (c : Came). c.event) cs

abbrev pub remove_all : List Ptr → List Ptr → List Ptr
remove_all [] ws = ws
remove_all (e ∷ es) ws = remove_all es (remove e ws)

-- Each of the events `es` is in the list `ws`, and none stands twice in `es`.
abbrev pub Among : List Ptr → List Ptr → Type 0
Among ws [] = Unit {0}
Among ws (e ∷ es) = (has e ws ≡ true) × Among (remove e ws) es

-- What each event is told.
abbrev pub told_of : List Came → (Ptr → ℕ) → Ptr → ℕ
told_of [] events = events
told_of (c ∷ cs) events = told_of cs (update events c.event c.events)

-- What a tick makes of the events `ws` that wait when `epoll_wait` reports `cs`, and the tasks
-- `queued` wait in the queue.
pub record Delivered (cs : List Came) (ws queued : List Ptr) (io : IoEvents)
    (out : TickStatus × Epoll) : Type 0 where
  pub status : out.0 ≡ pms_again
  pub waiting : IsList out.1.waiting (remove_all (reported cs) ws)
  pub queue : IsQueue out.1.world.taskq (queued ++ map io.task (reported cs))
  pub told : out.1.io.events ≡ told_of cs io.events

-- A wake-up of a task that is new to the queue.
pub wake-queues :
    (e : Ptr) (s : Epoll) {queued : List Ptr}
    → IsQueue s.world.taskq queued
    → s.io.task e ≢ null
    → has (s.io.task e) queued ≡ false
    → length queued + 1 < 2 ^ 64
    → IsQueue (wake e s).world.taskq (queued ++ (s.io.task e ∷ []))
unfolding schedule enqueue
wake-queues e s q n out room =
    let given : is_null (s.io.task e) ≡ false = ground arith in
    rw given (push-outside (s.io.task e) q n out room).1

-- One round of the loop over the events that are reported.
abbrev delivered_one : Came → Epoll → Epoll
delivered_one c s = wake c.event (record s {
  io = set_events c.event c.events s.io;
  waiting = (ListT.delete c.event s.waiting).1;
})

deliver-cons :
    (c : Came) (cs : List Came) (s : Epoll)
    → (ListT.delete c.event s.waiting).0 ≡ done
    → deliver (c ∷ cs) s ≡ deliver cs (delivered_one c s)
unfolding deliver
deliver-cons c cs s taken = rw (deliver, taken) refl

deliver-Delivered :
    (cs : List Came) (ws queued : List Ptr) (s : Epoll)
    → IsList s.waiting ws
    → Among ws (reported cs)
    → IsQueue s.world.taskq queued
    → length queued + length cs < 2 ^ 64
    → NewTasks s.io (reported cs) queued
    → Delivered cs ws queued s.io (deliver cs s)
unfolding deliver
deliver-Delivered [] ws queued s l among q room new = record {
  status = refl;
  waiting = l;
  queue = rw append-nil q;
  told = refl;
}
deliver-Delivered (c ∷ cs) ws queued s l among q room new =
    let t = s.io.task c.event in
    let s1 = delivered_one c s in
    let (taken, left) = delete_refines c.event l in
    let gone : (ListT.delete c.event s.waiting).0 ≡ done = rw among.0 at taken in
    let woken =
      wake-queues c.event (record s { io = set_events c.event c.events s.io }) q (new.0).0 (new.2).0
        (omega arith) in
    let rest =
      deliver-Delivered cs (remove c.event ws) (queued ++ (t ∷ [])) s1 left among.1 woken
        (grind sizes)
        (
          (new.0).1,
          (new.1).1,
          Apart-snoc t queued (map s.io.task (reported cs)) (new.2).1 (new.1).0,
        ) in
    rw (deliver-cons c cs s gone) (record {
      status = rest.status;
      waiting = rest.waiting;
      queue =
          subst (IsQueue (deliver cs s1).1.world.taskq)
            (append_assoc queued (t ∷ []) (map s.io.task (reported cs))) rest.queue;
      told = rest.told;
    })

-- What a tick is given: the events `ws` wait, and the tasks of `es` are new to the queue, which holds
-- `queued`.
pub record Waiting (s : Epoll) (ws es queued : List Ptr) : Type 0 where
  pub waiting : IsList s.waiting ws
  pub some_wait : ws ≢ []
  pub queue : IsQueue s.world.taskq queued
  pub room : length queued + length es < 2 ^ 64
  pub new_tasks : NewTasks s.io es queued

pub waits_for_some :
    {s : Epoll} {ws es queued : List Ptr} → Waiting s ws es queued → (s.waiting.count == 0) ≡ false
waits_for_some {s} {ws = []} w = absurd (w.some_wait refl)
waits_for_some {s} {ws = x ∷ ws} w = ground (arith, w.waiting.counted)

length-reported : (cs : List Came) → length (reported cs) ≡ length cs
length-reported [] = refl
length-reported (c ∷ cs) = ap suc (length-reported cs)

-- When events wait, and `epoll_wait` reports some of them, none twice, whose tasks are new to the
-- queue, and not more than the array has places for, a tick takes exactly these out of the list,
-- tells each what came, and queues their tasks in the order of the report; the others wait on, and
-- the tick asks to be called again.
pub tick-Delivered :
    (wait : WaitCall) (timeout_us : ℕ) (cs : List Came) (ws queued : List Ptr) (s : Epoll)
    → Waiting s ws (reported cs) queued
    → wait s.fd s.waiting.count (timeout_us / 1000) ≡ some cs
    → Among ws (reported cs)
    → length cs ≤ s.maxevents
    → (out : TickStatus × Epoll) × (tick wait timeout_us s ≡ some out)
      × Delivered cs ws queued s.io out
unfolding tick
tick-Delivered wait timeout_us cs ws queued s w answers among fits =
    let enough : ltb s.maxevents (length cs) ≡ false = ground arith in
    (
      deliver cs s,
      rw (waits_for_some w, answers, enough) refl,
      deliver-Delivered cs ws queued s w.waiting among w.queue
          (omega (arith, w.room, length-reported cs)) w.new_tasks,
    )
