-- ===== src/Worker/Plan.antt =====
-- The worker of pcaio/worker.c on tasks of which each gives way some times and then ends.
use Prim.Native.Nat.{bit_or}
use pcaio.Prelude.{
  ℕ, ◌≡◌, refl, sym, ap, ap₂, ◌≢◌, ◌∙◌, subst, Bool, true, false, Option, none, some, List, [], ◌∷◌,
  ◌++◌, arith, if◌then◌else◌, Ptr, null, is_null, update, Tid, has, has-append, remove,
}
use pcaio.QueueT
use pcaio.QueueT.{got, empty, waiting, Queue}
use pcaio.QueueT.Fifo.{IsQueue, push-outside}
use pcaio.QueueT.Pop.{popped, pop-cons}
use pcaio.ListT.{DList}
use pcaio.ListT.Refine.{IsList}
use pcaio.World.{World, task_terminated}
use pcaio.Task
use pcaio.Task.Life.{released, free_lem}
use pcaio.Task.Main.{terminated_flag}
use pcaio.Worker.{Round, running, set_task, turn}
use pcaio.Worker.Turn.{has_ended, is_held, settle-ready, settle-ended, entering, turn-got}

-- What a task does in one turn: it gives way, or its function returns this code.
abbrev pub Act : Type 0
Act = Option ℕ

-- The world in which the task comes back; `_taskmain` finds no callback.
abbrev pub came_back : Act → Ptr → World → World
came_back none t w = w
came_back (some code) t w = Task.finish (λ c u v. v) t code w

-- A round in which nothing happens but that.
pub record Behaves (o : Act) (r : Round) : Type 0 where
  pub alone : (w : World) → r.others w ≡ w
  pub returns : (t : Ptr) (w : World) → r.run t w ≡ (0, came_back o t w)

-- The queue, the tasks alive, and what was freed, after a turn of the first task.
abbrev pub queue_after : Act → Ptr → List Ptr → List Ptr
queue_after none x xs = xs ++ (x ∷ [])
queue_after (some code) x xs = xs

abbrev pub alive_after : Act → Ptr → List Ptr → List Ptr
alive_after none x zs = zs
alive_after (some code) x zs = remove x zs

abbrev pub freed_after : Act → Ptr → World → List Ptr
freed_after none x w = w.freed
freed_after (some code) x w = released x w

-- The tasks `xs` wait, the tasks `zs` are alive, none that waits has ended or is held, and no task
-- has a hook or a callback.
pub record IsPlain (w : World) (xs zs : List Ptr) : Type 0 where
  pub queue : IsQueue w.taskq xs
  pub alive : IsList w.tasks zs
  pub lives : (t : Ptr) → has t xs ≡ true → has_ended w t ≡ false
  pub free_to_run : (t : Ptr) → has t xs ≡ true → is_held w t ≡ false
  pub no_hook : (t : Ptr) → w.terminated t ≡ false
  pub no_callback : (t : Ptr) → w.callback t ≡ null

-- What the end of a task leaves as it was.
pub finish-keeps :
    (t : Ptr) (code : ℕ) (w : World)
    → w.terminated t ≡ false
    → w.callback t ≡ null
    → let v = Task.finish (λ c u v. v) t code w in
      (v.taskq ≡ w.taskq)
      × (v.tasks ≡ w.tasks)
      × (v.freed ≡ w.freed)
      × (v.stack ≡ w.stack)
      × (v.terminated ≡ w.terminated)
      × (v.callback ≡ w.callback)
      × (v.flags ≡ update w.flags t (bit_or (w.flags t) task_terminated))
unfolding Task.finish
finish-keeps t code w hook cb = (
  ground arith,
  ground arith,
  ground arith,
  ground arith,
  ground arith,
  ground arith,
  ground arith,
)

-- What `task_free` leaves as it was.
pub free-keeps :
    (t : Ptr) (w : World)
    → ((Task.free t w).stack ≡ w.stack)
      × ((Task.free t w).terminated ≡ w.terminated)
      × ((Task.free t w).callback ≡ w.callback)
unfolding Task.free
free-keeps t w = (ground arith, ground arith, ground arith)

pub free-keeps_gather :
    (t : Ptr) (w : World)
    → ((Task.free t w).gather ≡ w.gather)
      × ((Task.free t w).gather_count ≡ w.gather_count)
      × ((Task.free t w).gather_task ≡ w.gather_task)
unfolding Task.free
free-keeps_gather t w = (ground arith, ground arith, ground arith)

-- What one turn promises.
pub record Served (o : Act) (x : Ptr) (xs zs : List Ptr) (w v : World) : Type 0 where
  pub plain : IsPlain v (queue_after o x xs) (alive_after o x zs)
  pub freed : v.freed ≡ freed_after o x w
  pub stack : v.stack ≡ w.stack

head_ne_null : {q : Queue} {x : Ptr} {xs : List Ptr} → IsQueue q (x ∷ xs) → x ≢ null
head_ne_null is = ground (arith, is.chain)

-- A task that gives way goes to the end of the queue.
pub turn-yields :
    (thread : Tid) (r : Round) (w : World) {x : Ptr} {xs zs : List Ptr}
    → Behaves none r
    → IsPlain w (x ∷ xs) zs
    → (v : World) × (turn thread r w ≡ running v) × Served none x xs zs w v
unfolding set_task
turn-yields thread r w {x} {xs} {zs} g p =
    let (takes, left) = pop-cons true r.waits p.queue in
    let entered = entering thread r x w (popped (QueueT.lock w.taskq)) in
    let w1 : World = set_task r.clear thread null entered in
    let (accepted, holds) =
      push-outside x left (head_ne_null p.queue) p.queue.distinct.0
        (omega (arith, p.queue.small)) in
    let here : has x (x ∷ xs) ≡ true = ground arith in
    (
      record w1 { taskq = (QueueT.push x w1.taskq).1 },
      turn-got thread r (g.alone w) takes (g.returns x entered)
          ∙ settle-ready x w1 (p.lives x here) (p.free_to_run x here) accepted,
      record {
        plain = record {
          queue = holds;
          alive = p.alive;
          lives = λ t h. p.lives t (ground (arith, has-append t xs (x ∷ [])));
          free_to_run = λ t h. p.free_to_run t (ground (arith, has-append t xs (x ∷ [])));
          no_hook = p.no_hook;
          no_callback = p.no_callback;
        };
        freed = refl;
        stack = refl;
      },
    )

-- A task that ends is freed, and leaves the queue and the list of the tasks.
pub turn-ends :
    (thread : Tid) (r : Round) (w : World) {x : Ptr} {xs zs : List Ptr} (code : ℕ)
    → Behaves (some code) r
    → IsPlain w (x ∷ xs) zs
    → (v : World) × (turn thread r w ≡ running v) × Served (some code) x xs zs w v
unfolding set_task
turn-ends thread r w {x} {xs} {zs} code g p =
    let (takes, left) = pop-cons true r.waits p.queue in
    let e : World = entering thread r x w (popped (QueueT.lock w.taskq)) in
    let w1 : World = set_task r.clear thread null (came_back (some code) x e) in
    let (queue, tasks, freed, stack, hooks, callbacks, flags) =
      finish-keeps x code e (p.no_hook x) (p.no_callback x) in
    let (alive, gone, same_queue, same_flags) =
      free_lem w1 x (subst (λ (l : DList). IsList l zs) (sym tasks) p.alive)
        (head_ne_null p.queue) in
    let (stack1, hooks1, callbacks1) = free-keeps x w1 in
    let marked : w1.flags x ≡ bit_or (w.flags x) task_terminated =
      ap (λ (f : Ptr → ℕ). f x) flags ∙ ground arith in
    let over : has_ended w1 x ≡ true = rw (marked, terminated_flag (w.flags x)) refl in
    let same : (t : Ptr) → has t xs ≡ true → (Task.free x w1).flags t ≡ w.flags t =
      λ t h. ap (λ (f : Ptr → ℕ). f t) (same_flags ∙ flags) ∙ ground (arith, p.queue.distinct) in
    (
      Task.free x w1,
      turn-got thread r (g.alone w) takes (g.returns x e) ∙ settle-ended x w1 over,
      record {
        plain = record {
          queue = subst (λ (q : Queue). IsQueue q xs) (sym (same_queue ∙ queue)) left;
          alive = alive;
          lives = λ t h. rw (same t h) (p.lives t (ground arith));
          free_to_run = λ t h. rw (same t h) (p.free_to_run t (ground arith));
          no_hook = λ t. ap (λ (f : Ptr → Bool). f t) (hooks1 ∙ hooks) ∙ p.no_hook t;
          no_callback = λ t. ap (λ (f : Ptr → Ptr). f t) (callbacks1 ∙ callbacks) ∙ p.no_callback t;
        };
        freed =
            gone
            ∙ ap₂ (λ (k : Ptr → Ptr) (l : List Ptr). x ∷ (if is_null (k x) then l else k x ∷ l))
                stack freed;
        stack = stack1 ∙ stack;
      },
    )
