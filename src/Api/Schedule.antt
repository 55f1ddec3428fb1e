-- ===== src/Api/Schedule.antt =====
-- `pcaio_fschedule` and `pcaio_task_free` of pcaio/pcaio.c.
use pcaio.Prelude.{
  ℕ, ◌+◌, ◌^◌, ◌<◌, ◌≡◌, refl, sym, ◌∙◌, ap, subst, ◌≢◌, false, List, [], ◌∷◌, ◌++◌, arith, Ptr,
  null, is_null, update, done, length, has,
}
use pcaio.QueueT.{Queue}
use pcaio.QueueT.Chain.{Chain-update}
use pcaio.QueueT.Fifo.{IsQueue, push-outside}
use pcaio.ListT.Refine.{IsList}
use pcaio.World.{World, enqueue}
use pcaio.Task.{System}
use pcaio.Task.Life.{Granted, Fresh, new-Fresh, new-eq, made}
use pcaio.Api.{queue_new, fschedule}

-- Clearing the link of a stranger changes nothing.
clear-IsQueue :
    {q : Queue} {xs : List Ptr} (t : Ptr)
    → IsQueue q xs
    → has t xs ≡ false
    → IsQueue (record q { next = update q.next t null }) xs
clear-IsQueue {q} {xs} t is out = record {
  chain = Chain-update q.next q.head t null xs is.chain out;
  tail_last = is.tail_last;
  counted = is.counted;
  small = is.small;
  distinct = is.distinct;
  loose = λ a h. ground (arith, is.loose a h);
}

queue_new-made :
    (t : Ptr) (w : World)
    → t ≢ null
    → (enqueue t w).0 ≡ done
    → queue_new (t, w) ≡ (t, (enqueue t w).1)
unfolding queue_new
queue_new-made t w n e = rw (live, e) refl
  where
    live : is_null t ≡ false
    live = ground arith

-- What `pcaio_fschedule` comes to once the task is made and the queue has taken it.
fschedule-made :
    (sys : System) (func status : Ptr) (argc : ℕ) (args : List Ptr) (w : World)
    → Granted sys
    → func ≢ null
    → (enqueue sys.task (made sys func status argc args w)).0 ≡ done
    → fschedule sys func status argc args w
      ≡ (sys.task, (enqueue sys.task (made sys func status argc args w)).1)
unfolding fschedule
fschedule-made sys func status argc args w g f e =
    ap queue_new (new-eq sys func status argc args w g f)
    ∙ queue_new-made sys.task (made sys func status argc args w) g.0 e

-- The queue takes no field of the task but its link.
Fresh-queued :
    (sys : System) (func : Ptr) (args zs : List Ptr) (w v : World)
    → Fresh sys func args zs w (sys.task, v)
    → Fresh sys func args zs w (sys.task, (enqueue sys.task v).1)
unfolding enqueue
Fresh-queued sys func args zs w v is = record {
  is_task = refl;
  alive = is.alive;
  no_flags = is.no_flags;
  no_hook = is.no_hook;
  stack = is.stack;
  entry = is.entry;
  calls = is.calls;
  arguments = is.arguments;
  freed = is.freed;
}

made-queued :
    (sys : System) (func status : Ptr) (argc : ℕ) (args : List Ptr) (w : World) {xs : List Ptr}
    → Granted sys
    → IsQueue w.taskq xs
    → has sys.task xs ≡ false
    → length xs + 1 < 2 ^ 64
    → ((enqueue sys.task (made sys func status argc args w)).0 ≡ done)
      × IsQueue
          (enqueue sys.task (made sys func status argc args w)).1.taskq
          (xs ++ (sys.task ∷ []))
unfolding enqueue
made-queued sys func status argc args w g q out room =
    push-outside sys.task (clear-IsQueue sys.task q out) g.0 out room

-- If there is a function, the system grants memory and context, and the counters have room, a task
-- that is new to the queue and to the list is made, filled and queued behind all others.
pub fschedule-queues :
    (sys : System) (func status : Ptr) (args : List Ptr) (w : World) {xs zs : List Ptr}
    → Granted sys
    → func ≢ null
    → IsList w.tasks zs
    → has sys.task zs ≡ false
    → length zs + 1 < 2 ^ 64
    → IsQueue w.taskq xs
    → has sys.task xs ≡ false
    → length xs + 1 < 2 ^ 64
    → Fresh sys func args zs w (fschedule sys func status (length args) args w)
      × IsQueue (fschedule sys func status (length args) args w).1.taskq (xs ++ (sys.task ∷ []))
fschedule-queues sys func status args w {xs} {zs} g f l out room q out' room' =
    let (accepted, queued) = made-queued sys func status (length args) args w g q out' room' in
    subst
      (λ (r : Ptr × World). Fresh sys func args zs w r × IsQueue r.1.taskq (xs ++ (sys.task ∷ [])))
      (sym (fschedule-made sys func status (length args) args w g f accepted))
      (
        Fresh-queued sys func args zs w (made sys func status (length args) args w) (
            subst (Fresh sys func args zs w) (new-eq sys func status (length args) args w g f)
              (new-Fresh sys func status args w g f l out room)),
        queued,
      )
