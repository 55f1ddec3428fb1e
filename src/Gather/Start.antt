-- ===== src/Gather/Start.antt =====
-- The first half of `pcaio_gatherA` (pcaio/gather.c), up to where it gives up the processor.
use pcaio.Prelude.{
  AllNonNull, Apart, Apart-snoc, ℕ, ◌+◌, ◌%◌, ◌^◌, ◌<◌, ◌≡◌, refl, sym, ap, ◌∙◌, subst, ◌≢◌, Bool,
  true, false, ◌||◌, List, [], ◌∷◌, ◌++◌, append_assoc, append-nil, arith, if◌then◌else◌, Ptr, null,
  update, Status, done, length, sizes, has, Distinct, Tid,
}
use pcaio.QueueT.Fifo.{IsQueue, push-outside}
use Prim.Native.Nat.{bit_or}
use pcaio.Threadlocal.{Key}
use pcaio.World.{World, task_noschedule, enqueue}
use pcaio.Relax.{self, relax, add_flags, relax-swap}
use pcaio.Gather.{start, gather}
use pcaio.Gather.Count.{AllIn, Waits}

-- What the loop leaves: `ts` at the end of the queue, in order, each with its gather and its hook.
pub record Started (g : Ptr) (ts xs : List Ptr) (w : World) (out : Status × World) : Type 0 where
  pub accepted : out.0 ≡ done
  pub queue : IsQueue out.1.taskq (xs ++ ts)
  pub told : (a : Ptr) → out.1.gather a ≡ (if has a ts then g else w.gather a)
  pub hooked : (a : Ptr) → out.1.terminated a ≡ (has a ts || w.terminated a)
  pub same_count : out.1.gather_count ≡ w.gather_count
  pub same_task : out.1.gather_task ≡ w.gather_task
  pub same_mutex : out.1.gather_mutex ≡ w.gather_mutex
  pub same_flags : out.1.flags ≡ w.flags
  pub same_keys : (out.1.task_key ≡ w.task_key) × (out.1.context_key ≡ w.context_key)
  pub same_tasks : out.1.tasks ≡ w.tasks
  pub same_callback : out.1.callback ≡ w.callback

-- One round.
abbrev pub told_one : Ptr → Ptr → World → World
told_one t g w = record w { gather = update w.gather t g; terminated = update w.terminated t true }

pub start-one :
    (g t : Ptr) (ts : List Ptr) (w : World)
    → (enqueue t (told_one t g w)).0 ≡ done
    → start g (t ∷ ts) w ≡ start g ts (enqueue t (told_one t g w)).1
unfolding start
start-one g t ts w e = rw (start, e) refl

told_one-queued :
    (g t : Ptr) (w : World) {xs : List Ptr}
    → IsQueue w.taskq xs
    → t ≢ null
    → has t xs ≡ false
    → length xs + 1 < 2 ^ 64
    → ((enqueue t (told_one t g w)).0 ≡ done)
      × IsQueue (enqueue t (told_one t g w)).1.taskq (xs ++ (t ∷ []))
unfolding enqueue
told_one-queued g t w is n out room = push-outside t is n out room

Started-one :
    (g t : Ptr) (ts : List Ptr) (w : World) {xs : List Ptr}
    → (enqueue t (told_one t g w)).0 ≡ done
    → Started g ts
        (xs ++ (t ∷ []))
        (enqueue t (told_one t g w)).1
        (start g ts (enqueue t (told_one t g w)).1)
    → Started g (t ∷ ts) xs w (start g (t ∷ ts) w)
unfolding enqueue
Started-one g t ts w {xs} e rest =
    subst (Started g (t ∷ ts) xs w) (sym (start-one g t ts w e)) (record {
      accepted = rest.accepted;
      queue =
          subst (IsQueue (start g ts (enqueue t (told_one t g w)).1).1.taskq)
            (append_assoc xs (t ∷ []) ts) rest.queue;
      told = λ b. ground (arith, rest.told b);
      hooked = λ b. ground (arith, rest.hooked b);
      same_count = rest.same_count;
      same_task = rest.same_task;
      same_mutex = rest.same_mutex;
      same_flags = rest.same_flags;
      same_keys = rest.same_keys;
      same_tasks = rest.same_tasks;
      same_callback = rest.same_callback;
    })

pub start-Started :
    (g : Ptr) (ts : List Ptr) (w : World) {xs : List Ptr}
    → IsQueue w.taskq xs
    → AllNonNull ts
    → Apart xs ts
    → Distinct ts
    → length xs + length ts < 2 ^ 64
    → Started g ts xs w (start g ts w)
unfolding start
start-Started g [] w {xs} is n a d room = record {
  accepted = refl;
  queue = rw append-nil is;
  told = λ b. refl;
  hooked = λ b. refl;
  same_count = refl;
  same_task = refl;
  same_mutex = refl;
  same_flags = refl;
  same_keys = (refl, refl);
  same_tasks = refl;
  same_callback = refl;
}
start-Started g (t ∷ ts) w {xs} is n a d room =
    let (accepted, queued) = told_one-queued g t w is n.0 a.0 (omega arith) in
    Started-one g t ts w accepted (
      start-Started g ts (enqueue t (told_one t g w)).1 queued n.1 (Apart-snoc t xs ts a.1 d.0) d.1
        (grind sizes))

AllIn-told :
    (g : Ptr) (ts : List Ptr) (f : Ptr → Ptr)
    → ((a : Ptr) → has a ts ≡ true → f a ≡ g)
    → AllIn f g ts
AllIn-told g [] f told = tt
AllIn-told g (t ∷ ts) f told =
    (told t (ground arith), AllIn-told g ts f (λ a h. told a (ground arith)))

-- The world in which the loop starts, if the mutex could be made.
abbrev pub ready : (g self : Ptr) → List Ptr → World → World
ready g self ts w = record w {
  gather_count = update w.gather_count g (length ts % 2 ^ 16);
  gather_task = update w.gather_task g self;
  gather_mutex = update w.gather_mutex g true;
}

gather-start :
    (g : Ptr) (thread : Tid) (swap : World → Status × World) (ts : List Ptr) (w : World)
    → (start g ts (ready g (self thread w) ts w)).0 ≡ done
    → (relax thread swap task_noschedule (start g ts (ready g (self thread w) ts w)).1).0 ≡ done
    → gather g thread 0 swap ts w
      ≡ relax thread swap task_noschedule (start g ts (ready g (self thread w) ts w)).1
unfolding gather
gather-start g thread swap ts w e e' = rw (e, e') refl

-- What `pcaio_gatherA` has arranged for the group `ts` where it gives up the processor.
pub record Arranged (g : Ptr) (thread : Tid) (ts xs : List Ptr) (w v : World) : Type 0 where
  pub all_in : AllIn v.gather g ts
  pub hooked : (a : Ptr) → v.terminated a ≡ (has a ts || w.terminated a)
  pub waits : Waits v g (self thread w) (length ts) (xs ++ ts)
  pub flags :
      v.flags ≡ update w.flags (self thread w) (bit_or (w.flags (self thread w)) task_noschedule)
  pub tasks : v.tasks ≡ w.tasks
  pub callback : v.callback ≡ w.callback

-- In a task, with tasks that are new to the queue, distinct and not NULL, fewer than 2 ^ 16 and
-- with room in the queue: where `pcaio_gatherA` gives up the processor all tasks stand at the end
-- of the queue in their order, each with its hook and this gather, the gather waits for as many as
-- there are on behalf of the running task, and that task is flagged to stay out of the queue, while
-- the flags of the others, the list of tasks and the callbacks are as they were. What it returns is
-- what that task finds when it runs again.
pub gather-waits :
    (g : Ptr) (thread : Tid) (swap : World → Status × World) (ts : List Ptr) (w : World)
    {xs : List Ptr}
    → IsQueue w.taskq xs
    → AllNonNull ts
    → Apart xs ts
    → Distinct ts
    → length xs + length ts < 2 ^ 64
    → length ts < 2 ^ 16
    → self thread w ≢ null
    → w.context_key.value thread ≢ null
    → ((v : World) → (swap v).0 ≡ done)
    → (v : World) × (gather g thread 0 swap ts w ≡ swap v) × Arranged g thread ts xs w v
unfolding self
gather-waits g thread swap ts w {xs} is n a d room small task ctx swaps =
    let s = start-Started g ts (ready g (self thread w) ts w) is n a d room in
    let begun = (start g ts (ready g (self thread w) ts w)).1 in
    let (same_task_key, same_context_key) = s.same_keys in
    let runs : self thread begun ≡ self thread w = ap (λ (k : Key). k.value thread) same_task_key in
    let lands : begun.context_key.value thread ≡ w.context_key.value thread =
      ap (λ (k : Key). k.value thread) same_context_key in
    let v = add_flags (self thread begun) task_noschedule begun in
    let leaves = relax-swap thread swap task_noschedule begun (ground arith) (ground arith) in
    (
      v,
      gather-start g thread swap ts w s.accepted (rw leaves (swaps v)) ∙ leaves,
      record {
        all_in = AllIn-told g ts begun.gather (λ b h. ground (arith, s.told b));
        hooked = s.hooked;
        waits = record {
          count = ground (arith, ap (λ (f : Ptr → ℕ). f g) s.same_count);
          owner = ground (arith, ap (λ (f : Ptr → Ptr). f g) s.same_task);
          alive = ground (arith, ap (λ (f : Ptr → Bool). f g) s.same_mutex);
          queue = s.queue;
        };
        flags =
            ap (λ (t : Ptr). update begun.flags t (bit_or (begun.flags t) task_noschedule)) runs
            ∙ ap
                (λ (f : Ptr → ℕ).
                  update f (self thread w) (bit_or (f (self thread w)) task_noschedule))
                s.same_flags;
        tasks = s.same_tasks;
        callback = s.same_callback;
      },
    )
