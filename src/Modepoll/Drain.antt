-- ===== src/Modepoll/Drain.antt =====
-- `_tick` of pcaio/modepoll.c when `epoll_wait` fails.
use Prim.Native.Nat.{bit_or}
use pcaio.Prelude.{
  ℕ, zero, suc, ◌+◌, ◌/◌, ◌^◌, ◌<◌, ◌≡◌, refl, ap, subst, ◌∙◌, inr, Option, none, some, List, [],
  ◌∷◌, ◌++◌, map, append_assoc, append-nil, arith, if◌then◌else◌, Ptr, Status, length, sizes, has,
  Apart-snoc,
}
use pcaio.QueueT.Fifo.{IsQueue}
use pcaio.ListT
use pcaio.ListT.{DList}
use pcaio.ListT.Refine.{IsList}
use pcaio.ListT.Delete.{pop-first, pop_fails}
use pcaio.IoEvent.{IoEvents, NewTasks, set_events}
use pcaio.Modio.{ioerr}
use pcaio.Master.{pms_panic, address}
use pcaio.Modepoll.{Epoll, wake, drain, WaitCall, tick}
use pcaio.Modepoll.Tick.{Waiting, waits_for_some, wake-queues}

-- What a tick makes of the events `ws` when `epoll_wait` fails.
pub record Drained (ws queued : List Ptr) (io : IoEvents) (out : Epoll) : Type 0 where
  pub waiting : IsList out.waiting []
  pub queue : IsQueue out.world.taskq (queued ++ map io.task ws)
  pub told :
      (e : Ptr) → out.io.events e ≡ (if has e ws then bit_or (io.events e) ioerr else io.events e)

abbrev drained_one : Ptr → Epoll → Epoll
drained_one e s = wake e (record s {
  io = set_events e (bit_or (s.io.events e) ioerr) s.io;
  waiting = (ListT.pop address s.waiting).2;
})

drain-cons :
    (fuel : ℕ) (e : Ptr) (ws : List Ptr) (s : Epoll)
    → IsList s.waiting (e ∷ ws)
    → drain (suc fuel) s ≡ drain fuel (drained_one e s)
unfolding drain
drain-cons fuel e ws s l = rw (drain, (pop-first address (omega arith) l).1) refl

drain-nil : (fuel : ℕ) (s : Epoll) → IsList s.waiting [] → drain (suc fuel) s ≡ s
unfolding drain
drain-nil fuel s l =
    let nothing = pop_fails address l (inr refl) in
    let none_left : (ListT.pop address s.waiting).1 ≡ none =
      ap (λ (r : Status × Option Ptr × DList). r.1) nothing in
    let same : (ListT.pop address s.waiting).2 ≡ s.waiting =
      ap (λ (r : Status × Option Ptr × DList). r.2) nothing in
    rw (drain, none_left, same) refl

drain-Drained :
    (fuel : ℕ) (ws queued : List Ptr) (s : Epoll)
    → length ws < fuel
    → IsList s.waiting ws
    → IsQueue s.world.taskq queued
    → length queued + length ws < 2 ^ 64
    → NewTasks s.io ws queued
    → Drained ws queued s.io (drain fuel s)
drain-Drained zero ws queued s enough l q room new = absurd (omega arith)
drain-Drained (suc fuel) [] queued s enough l q room new =
    rw (drain-nil fuel s l) (record { waiting = l; queue = rw append-nil q; told = λ e. refl })
drain-Drained (suc fuel) (e ∷ ws) queued s enough l q room new =
    let t = s.io.task e in
    let s1 = drained_one e s in
    let woken = wake-queues e s q (new.0).0 (new.2).0 (omega arith) in
    let rest =
      drain-Drained fuel ws (queued ++ (t ∷ [])) s1 (omega arith)
        (pop-first address (omega arith) l).2 woken (grind sizes)
        ((new.0).1, (new.1).1, Apart-snoc t queued (map s.io.task ws) (new.2).1 (new.1).0) in
    rw (drain-cons fuel e ws s l) (record {
      waiting = rest.waiting;
      queue =
          subst (IsQueue (drain fuel s1).world.taskq)
            (append_assoc queued (t ∷ []) (map s.io.task ws)) rest.queue;
      told = λ a. rest.told a ∙ ground (arith, l.distinct);
    })

-- When events wait, whose tasks are new to the queue, and `epoll_wait` fails, a tick empties the
-- list, adds an error to what each event waits for, queues all their tasks in the order of the
-- list, and reports a panic.
pub tick-Drained :
    (wait : WaitCall) (timeout_us : ℕ) (ws queued : List Ptr) (s : Epoll)
    → Waiting s ws ws queued
    → wait s.fd s.waiting.count (timeout_us / 1000) ≡ none
    → (out : Epoll) × (tick wait timeout_us s ≡ some (pms_panic, out)) × Drained ws queued s.io out
unfolding tick
tick-Drained wait timeout_us ws queued s w answers = (
  drain (s.waiting.count + 1) s,
  rw (waits_for_some w, answers) refl,
  drain-Drained (s.waiting.count + 1) ws queued s (omega (arith, w.waiting.counted)) w.waiting
      w.queue w.room w.new_tasks,
)
