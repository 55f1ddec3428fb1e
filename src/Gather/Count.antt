-- ===== src/Gather/Count.antt =====
-- The hook of pcaio/gather.c (`gather_taskterminated`), called for each task of a group.
use pcaio.Prelude.{
  ℕ, suc, ◌+◌, ◌-◌, ◌%◌, ◌^◌, ◌<◌, ◌≡◌, refl, sym, ◌∙◌, ap, subst, ◌≢◌, true, false, List, [], ◌∷◌,
  ◌++◌, arith, ◌==◌, Ptr, null, is_null, update, length, has,
}
use pcaio.QueueT.Fifo.{IsQueue, push-outside}
use pcaio.World.{World, enqueue, schedule}
use pcaio.Gather.{taskterminated}

-- The tasks end one after the other; what else happens meanwhile leaves these fields alone.
unfoldable pub terminate_all : List Ptr → World → World
terminate_all [] w = w
terminate_all (t ∷ ts) w = terminate_all ts (taskterminated t w)

-- The tasks `ts` belong to the gather `g`.
abbrev pub AllIn : (Ptr → Ptr) → Ptr → List Ptr → Type 0
AllIn gather g [] = Unit {0}
AllIn gather g (t ∷ ts) = (gather t ≡ g) × AllIn gather g ts

-- The gather `g` waits for `n` more tasks on behalf of `task`, and the queue holds `xs`.
pub record Waits (w : World) (g task : Ptr) (n : ℕ) (xs : List Ptr) : Type 0 where
  pub count : w.gather_count g ≡ n
  pub owner : w.gather_task g ≡ task
  pub alive : w.gather_mutex g ≡ true
  pub queue : IsQueue w.taskq xs

pub taskterminated-more :
    (t g : Ptr) (w : World) (n : ℕ)
    → w.gather t ≡ g
    → w.gather_count g ≡ suc (suc n)
    → suc (suc n) < 2 ^ 16
    → taskterminated t w ≡ record w { gather_count = update w.gather_count g (suc n) }
unfolding taskterminated
taskterminated-more t g w n e count small = rw (e, count, left, some_left) refl
  where
    left : (suc (suc n) + (2 ^ 16 - 1)) % 2 ^ 16 ≡ suc n
    left = omega arith

    some_left : (suc n == 0) ≡ false
    some_left = ground arith

pub taskterminated-last :
    (t g : Ptr) (w : World)
    → w.gather t ≡ g
    → w.gather_count g ≡ 1
    → taskterminated t w
      ≡ (schedule (w.gather_task g) (record w {
        gather_count = update w.gather_count g 0;
        gather_mutex = update w.gather_mutex g false;
      })).1
unfolding taskterminated
taskterminated-last t g w e count = rw (e, count) refl

-- As long as tasks are left the queue stays as it is.
pub terminate_all-Waits :
    (ts : List Ptr) (g : Ptr) (k : ℕ) (w : World) {task : Ptr} {xs : List Ptr}
    → AllIn w.gather g ts
    → Waits w g task (length ts + suc k) xs
    → length ts + suc k < 2 ^ 16
    → Waits (terminate_all ts w) g task (suc k) xs × ((terminate_all ts w).gather ≡ w.gather)
unfolding terminate_all
terminate_all-Waits [] g k w all waits small = (
  record {
    count = waits.count ∙ omega arith;
    owner = waits.owner;
    alive = waits.alive;
    queue = waits.queue;
  },
  refl,
)
terminate_all-Waits (t ∷ ts) g k w {task} {xs} all waits small =
    subst
      (λ v. Waits (terminate_all ts v) g task (suc k) xs × ((terminate_all ts v).gather ≡ w.gather))
      (sym one) (terminate_all-Waits ts g k w1 all.1 still (omega arith))
  where
    n : ℕ
    n = length ts + k

    w1 : World
    w1 = record w { gather_count = update w.gather_count g (suc n) }

    one : taskterminated t w ≡ w1
    one = taskterminated-more t g w n all.0 (waits.count ∙ omega arith) (omega arith)

    still : Waits w1 g task (length ts + suc k) xs
    still = record {
      count = ground arith;
      owner = waits.owner;
      alive = waits.alive;
      queue = waits.queue;
    }

-- The last task of a group queues the one that waits.
last-schedules :
    (t g : Ptr) (w : World) {task : Ptr} {xs : List Ptr}
    → w.gather t ≡ g
    → Waits w g task 1 xs
    → task ≢ null
    → has task xs ≡ false
    → length xs + 1 < 2 ^ 64
    → IsQueue (taskterminated t w).taskq (xs ++ (task ∷ []))
      × ((taskterminated t w).gather_mutex g ≡ false)
unfolding schedule enqueue
last-schedules t g w {task} {xs} e waits live out room =
    subst (λ v. IsQueue v.taskq (xs ++ (task ∷ [])) × (v.gather_mutex g ≡ false))
      (sym (taskterminated-last t g w e waits.count))
      (rw (waits.owner, awake) ((push-outside task waits.queue live out room).1, ground arith))
  where
    awake : is_null task ≡ false
    awake = ground arith

-- When the tasks of a gather that counts them, fewer than 2 ^ 16, end one after the other, the
-- task that waits and is not in the queue is queued by the last one: before that the queue is as
-- it was and the mutex of the gather exists, and then the task stands at the end of the queue and
-- the mutex is destroyed.
pub gather_wakes :
    (ts : List Ptr) (t g : Ptr) (w : World) {task : Ptr} {xs : List Ptr}
    → AllIn w.gather g ts
    → w.gather t ≡ g
    → Waits w g task (length ts + 1) xs
    → length ts + 1 < 2 ^ 16
    → task ≢ null
    → has task xs ≡ false
    → length xs + 1 < 2 ^ 64
    → let before = terminate_all ts w in
      IsQueue before.taskq xs
      × IsQueue (taskterminated t before).taskq (xs ++ (task ∷ []))
      × (before.gather_mutex g ≡ true)
      × ((taskterminated t before).gather_mutex g ≡ false)
gather_wakes ts t g w all e waits small live out room =
    let (waits', same) = terminate_all-Waits ts g 0 w all waits small in
    let (queued, gone) =
      last-schedules t g (terminate_all ts w) (ap (λ (f : Ptr → Ptr). f t) same ∙ e) waits' live out
        room in
    (waits'.queue, queued, waits'.alive, gone)
