-- ===== src/Examples/Tasks.antt =====
-- What the loop leaves that makes the tasks of a program of examples/.
use pcaio.Prelude.{
  ℕ, zero, suc, ◌+◌, ◌^◌, ◌<◌, ◌≡◌, refl, sym, ap, subst, ◌≢◌, true, false, List, [], ◌∷◌, ◌++◌,
  append_assoc, append-nil, arith, Ptr, null, length, sizes, has, has-append, Distinct, Apart,
  Apart-snoc, AllNonNull,
}
use pcaio.Threadpool.Loops.{slice}
use pcaio.ListT.Refine.{IsList, append-outside, clear-IsList}
use pcaio.World.{World}
use pcaio.Task.{System}
use pcaio.Task.Life.{Granted, made, new-eq}
use pcaio.Master.{State}
use pcaio.Api.Complete.{IsPrepared}
use pcaio.Examples.{make_tasks}

-- The tasks `zs` were made, and nothing has happened to them or to the queue.
pub record IsNew (w : World) (zs : List Ptr) : Type 0 where
  pub alive : IsList w.tasks zs
  pub no_flags : (t : Ptr) → has t zs ≡ true → w.flags t ≡ 0
  pub unlinked : (t : Ptr) → w.taskq.next t ≡ null
  pub no_hook : (t : Ptr) → w.terminated t ≡ false
  pub no_callback : (t : Ptr) → w.callback t ≡ null

pub made-IsNew :
    (sys : System) (func : Ptr) (argc : ℕ) (args : List Ptr) (w : World) {zs : List Ptr}
    → Granted sys
    → IsNew w zs
    → has sys.task zs ≡ false
    → length zs + 1 < 2 ^ 64
    → IsNew (made sys func null argc args w) (zs ++ (sys.task ∷ []))
made-IsNew sys func argc args w {zs} g n out room = record {
  alive = (append-outside sys.task (clear-IsList sys.task n.alive out) g.0 out room).1;
  no_flags = λ t h. ground (arith, n.no_flags t, has-append t zs (sys.task ∷ []));
  unlinked = λ t. ground (arith, n.unlinked t);
  no_hook = λ t. ground (arith, n.no_hook t);
  no_callback = λ t. ground (arith, n.no_callback t);
}

-- The memory that the system gives for the tasks.
abbrev pub given : (sys : ℕ → System) → (left i : ℕ) → List Ptr
given sys left i = slice (λ k. (sys k).task) left i

-- When the system grants everything, and gives memory that is not in use and not given twice, the
-- loop makes as many tasks as it has rounds, and puts them on the list in order.
pub make_tasks-IsNew :
    (sys : ℕ → System) (func : Ptr) (args : ℕ → List Ptr) (left i : ℕ) (w : World) {zs : List Ptr}
    → ((k : ℕ) → Granted (sys k))
    → func ≢ null
    → IsNew w zs
    → Apart zs (given sys left i)
    → Distinct (given sys left i)
    → length zs + left < 2 ^ 64
    → ((make_tasks sys func args left i w).0 ≡ given sys left i)
      × IsNew (make_tasks sys func args left i w).1 (zs ++ given sys left i)
unfolding make_tasks
make_tasks-IsNew sys func args zero i w g f n a d room = (refl, rw append-nil n)
make_tasks-IsNew sys func args (suc left) i w {zs} g f n a d room =
    let t = (sys i).task in
    let one = new-eq (sys i) func null (length (args i)) (args i) w (g i) f in
    let w1 = made (sys i) func null (length (args i)) (args i) w in
    let (all, rest) =
      make_tasks-IsNew sys func args left (i + 1) w1 g f
        (made-IsNew (sys i) func (length (args i)) (args i) w (g i) n a.0 (omega arith))
        (Apart-snoc t zs (given sys left (i + 1)) a.1 d.0) d.1 (grind sizes) in
    let all_tasks = zs ++ (t ∷ given sys left (i + 1)) in
    let kept =
      subst (IsNew (make_tasks sys func args left (i + 1) w1).1)
        (append_assoc zs (t ∷ []) (given sys left (i + 1))) rest in
    subst
      (λ (r : Ptr × World).
        (r.0 ∷ (make_tasks sys func args left (i + 1) r.1).0 ≡ t ∷ given sys left (i + 1))
        × IsNew (make_tasks sys func args left (i + 1) r.1).1 all_tasks)
      (sym one) (ap (λ (l : List Ptr). t ∷ l) all, kept)

-- The program is ready to call `pcaio` with them.
pub IsNew-IsPrepared :
    {M : Type 0} (s : State M) (w : World) (ts : List Ptr)
    → s.workers ≡ 0
    → s.modulescount ≡ 0
    → IsNew w ts
    → AllNonNull ts
    → IsPrepared (record s { world = w }) ts ts
IsNew-IsPrepared s w ts idle bare n live = record {
  idle = idle;
  no_modules = bare;
  alive = n.alive;
  same = λ t. refl;
  unlinked = n.unlinked;
  distinct = n.alive.distinct;
  tasks = live;
  few = n.alive.small;
  lives = λ t h. rw (n.no_flags t h) refl;
  free_to_run = λ t h. rw (n.no_flags t h) refl;
  no_hook = n.no_hook;
  no_callback = n.no_callback;
}
