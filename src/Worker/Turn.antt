-- ===== src/Worker/Turn.antt =====
-- One turn of the worker's loop (pcaio/worker.c): what becomes of the task that it ran.
use Prim.Native.Nat.{bit_and}
use pcaio.Prelude.{
  ℕ, ◌+◌, ◌-◌, ◌^◌, ◌<◌, ◌≡◌, refl, ◌≢◌, ◌⊎◌, ap, sym, subst, ◌∙◌, Bool, true, false, not, ◌||◌,
  List, [], ◌∷◌, ◌++◌, arith, ◌==◌, if◌then◌else◌, Ptr, null, update, done, length, has, Tid,
  remove, Bool-cases, inl, inr,
}
use pcaio.Prelude.Bits.{bit_and-flag, flag, flag-bit_and}
use pcaio.QueueT
use pcaio.QueueT.{Queue, got}
use pcaio.QueueT.Fifo.{IsQueue, push-outside}
use pcaio.QueueT.Pop.{popped, pop-cons}
use pcaio.ListT.Refine.{IsList}
use pcaio.World.{World, enqueue}
use pcaio.Task
use pcaio.Task.Life.{released}
use pcaio.World.{task_terminated, task_noschedule}
use pcaio.Worker.{Round, running, without_noschedule, settle, set_task, dispatch, turn}

-- Whether the task has ended, and whether it is to stay out of the queue.
abbrev pub has_ended : World → Ptr → Bool
has_ended w t = not (bit_and (w.flags t) task_terminated == 0)

abbrev pub is_held : World → Ptr → Bool
is_held w t = not (bit_and (w.flags t) task_noschedule == 0)

-- What `settle` promises of a task outside the queue `ys`, with the tasks `zs` alive: one that has
-- ended is freed and forgotten, one that is held leaves no trace but a cleared flag, and any other
-- goes to the end of the queue.
pub record Settled (t : Ptr) (w v : World) (ys zs : List Ptr) : Type 0 where
  pub queue : IsQueue v.taskq (if has_ended w t || is_held w t then ys else ys ++ (t ∷ []))
  pub alive : IsList v.tasks (if has_ended w t then remove t zs else zs)
  pub disposed : v.freed ≡ (if has_ended w t then released t w else w.freed)
  pub unheld : (has_ended w t ≡ true) ⊎ (bit_and (v.flags t) task_noschedule ≡ 0)

-- Clearing the flag clears it, and keeps the flag of a task that has ended.
pub without_noschedule-flags :
    (f : ℕ)
    → (bit_and (without_noschedule f) task_noschedule ≡ 0)
      × (bit_and (without_noschedule f) task_terminated ≡ bit_and f task_terminated)
unfolding flag
without_noschedule-flags f = (
  bit_and-flag 1 (without_noschedule f) ∙ omega (arith, flag-bit_and 1 f (2 ^ 32 - 3)),
  bit_and-flag 0 (without_noschedule f)
      ∙ omega (arith, flag-bit_and 0 f (2 ^ 32 - 3), bit_and-flag 0 f),
)

pub settle-ended :
    (t : Ptr) (w : World) → has_ended w t ≡ true → settle t w ≡ running (Task.free t w)
unfolding settle
settle-ended t w e = ground arith

pub settle-held :
    (t : Ptr) (w : World)
    → has_ended w t ≡ false
    → is_held w t ≡ true
    → settle t w ≡ running (record w { flags = update w.flags t (without_noschedule (w.flags t)) })
unfolding settle
settle-held t w e h = ground arith

pub settle-ready :
    (t : Ptr) (w : World)
    → has_ended w t ≡ false
    → is_held w t ≡ false
    → (QueueT.push t w.taskq).0 ≡ done
    → settle t w ≡ running (record w { taskq = (QueueT.push t w.taskq).1 })
unfolding settle enqueue
settle-ready t w e h p = ground arith

-- The worker goes on, and the task that came back is in exactly one place.
pub settle-Settled :
    {t : Ptr} {w : World} {ys zs : List Ptr}
    → IsQueue w.taskq ys
    → IsList w.tasks zs
    → t ≢ null
    → has t ys ≡ false
    → length ys + 1 < 2 ^ 64
    → (v : World) × (settle t w ≡ running v) × Settled t w v ys zs
settle-Settled {t} {w} {ys} {zs} q l n out room = elim (Bool-cases (has_ended w t)) [
  | inl ended ↦ (
    Task.free t w,
    settle-ended t w ended,
    (let (alive, freed, same, _) = Task.Life.free_lem w t l n in
        record {
          queue = rw ended (subst (λ (o : Queue). IsQueue o ys) (sym same) q);
          alive = rw ended alive;
          disposed = rw ended freed;
          unheld = inl ended;
        }),
  )
  | inr alive ↦ elim (Bool-cases (is_held w t)) [
    | inl held ↦ (
      _,
      settle-held t w alive held,
      record {
        queue = rw (alive, held) q;
        alive = rw alive l;
        disposed = rw alive refl;
        unheld = inr (ground (arith, without_noschedule-flags (w.flags t)));
      },
    )
    | inr ready ↦
        let (accepted, is) = push-outside t q n out room in
        (
          _,
          settle-ready t w alive ready accepted,
          record {
            queue = rw (alive, ready) is;
            alive = rw alive l;
            disposed = rw alive refl;
            unheld = inr (ground arith);
          },
        )
  ]
]

dispatch-got :
    (thread : Tid) (r : Round) (w : World) {v : World} (t : Ptr) (q : Queue)
    → r.run t (set_task r.store thread t (record w { taskq = q })) ≡ (0, v)
    → dispatch thread r w (got t q) ≡ settle t (set_task r.clear thread null v)
unfolding dispatch
dispatch-got thread r w t q back = rw back

-- The world in which a worker that has got the task `t` switches to it.
abbrev pub entering : Tid → Round → Ptr → World → Queue → World
entering thread r t w q = set_task r.store thread t (record w { taskq = q })

-- A turn that gets a task, and gets it back.
pub turn-got :
    (thread : Tid) (r : Round) {w0 w v : World} {t : Ptr} {q : Queue}
    → r.others w0 ≡ w
    → QueueT.pop true r.waits w.taskq ≡ got t q
    → r.run t (entering thread r t w q) ≡ (0, v)
    → turn thread r w0 ≡ settle t (set_task r.clear thread null v)
unfolding turn
turn-got thread r {w} {t} {q} alone takes back =
    ap (λ (u : World). dispatch thread r u (QueueT.pop true r.waits u.taskq)) alone
    ∙ ap (dispatch thread r w) takes
    ∙ dispatch-got thread r w t q back

-- The state in which the task `x`, the first of the queue, is entered, and the one in which it
-- comes back and is forgotten.
abbrev pub first_in : Tid → Round → Ptr → World → World
first_in thread r x w = entering thread r x w (popped (QueueT.lock w.taskq))

abbrev pub first_back : Tid → Round → Ptr → World → World
first_back thread r x w = set_task r.clear thread null (r.run x (first_in thread r x w)).1

-- One turn, once the other threads have left a queue that holds something and if the switch to the
-- task succeeds: the worker takes the oldest task, runs it, and goes on, and the task is settled:
-- if it has ended it is freed and off the list, if it is held its flag is cleared and it stays out
-- of the queue, and otherwise it goes to the end of the queue. The task may change the world in
-- any way that leaves the queue, with room in its counter, and the list of the tasks well formed,
-- and itself out of the queue.
pub turn-Settled :
    (thread : Tid) (r : Round) (w0 : World) {x : Ptr} {xs ys zs : List Ptr}
    → IsQueue (r.others w0).taskq (x ∷ xs)
    → (r.run x (first_in thread r x (r.others w0))).0 ≡ 0
    → IsQueue (first_back thread r x (r.others w0)).taskq ys
    → IsList (first_back thread r x (r.others w0)).tasks zs
    → x ≢ null
    → has x ys ≡ false
    → length ys + 1 < 2 ^ 64
    → (v : World) × (turn thread r w0 ≡ running v)
      × Settled x (first_back thread r x (r.others w0)) v ys zs
turn-Settled thread r w0 {x} is ok q l n out room =
    let w = r.others w0 in
    let (v, settled, holds) = settle-Settled q l n out room in
    (
      v,
      turn-got thread r refl (pop-cons true r.waits is).0
            (λ i. (ok i, (r.run x (first_in thread r x w)).1))
          ∙ settled,
      holds,
    )
