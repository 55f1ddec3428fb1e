-- ===== src/Task.antt =====
-- pcaio/task.c: making a task, disposing of it, and the wrapper in which its function runs.
pub mod Main
pub mod Life
mod Tests
use Prim.Native.Nat.{bit_or, bit_and}
use pcaio.Prelude.{
  ℕ, zero, suc, ◌+◌, ◌-◌, ◌*◌, ◌/◌, ◌%◌, ◌^◌, Bool, true, false, not, List, [], ◌∷◌, leb, ◌==◌,
  if◌then◌else◌, Ptr, null, is_null, update, Status, Tid,
}
use pcaio.World.{World, task_terminated}
use pcaio.Threadlocal
use pcaio.ListT
use pcaio.Gather

-- The two words of a pointer, `p >> 32` and `p & 0xffffffff`, and `(long)p1 << 32 | p2`.
unfoldable pub split_pointer : Ptr → ℕ × ℕ
split_pointer p = (p / 2 ^ 32 % 2 ^ 32, bit_and p 0xffffffff)

unfoldable pub join_pointer : ℕ → ℕ → Ptr
join_pointer p1 p2 = bit_or (p1 * 2 ^ 32 % 2 ^ 64) p2

-- The loop of `task_new` that copies the arguments, with `left` to go. A call that passes fewer
-- arguments than it says is not defined in C; here it stops.
unfoldable pub copy_args : (argc left : ℕ) → List Ptr → (ℕ → Ptr) → ℕ → Ptr
copy_args argc zero args argv = argv
copy_args argc (suc left) [] argv = argv
copy_args argc (suc left) (a ∷ args) argv =
    copy_args argc left args (update argv (argc - suc left) a)

-- What the system answers during `task_new`: the two blocks of memory, or NULL, and what
-- `getcontext` returns.
pub record System : Type 0 where
  pub task : Ptr
  pub context : ℕ
  pub stack : Ptr

-- The task's fields, as `task_new` stores them.
abbrev pub filled : Ptr → (func status : Ptr) → (argc : ℕ) → List Ptr → World → World
filled t func status argc args w = record w {
  flags = update w.flags t 0;
  gather = update w.gather t null;
  terminated = update w.terminated t false;
  callback = update w.callback t null;
  func = update w.func t func;
  status = update w.status t status;
  argc = update w.argc t argc;
  argv = update w.argv t (copy_args argc argc args (λ _. null));
  stack = update w.stack t null;
  tasks = record w.tasks { next = update w.tasks.next t null; prev = update w.tasks.prev t null };
  taskq = record w.taskq { next = update w.taskq.next t null };
}

-- `task_new`: the task or NULL.
unfoldable pub new : System → (func status : Ptr) → (argc : ℕ) → List Ptr → World → Ptr × World
unfolding split_pointer
new sys func status argc args w =
    let t = sys.task in
    let w1 = filled t func status argc args w in
    if is_null func
    then (null, w)
    else (if is_null t
        then (null, w)
        else (if not (sys.context == 0)
            then (null, record w1 { freed = t ∷ w1.freed })
            else (if is_null sys.stack then (null, record w1 { freed = t ∷ w1.freed }) else (
              t,
              record w1 {
                stack = update w1.stack t sys.stack;
                entry = update w1.entry t (split_pointer t);
                tasks = (ListT.append t w1.tasks).1;
              },
            ))))

-- `task_free`.
unfoldable pub free : Ptr → World → World
free t w =
    if is_null t
    then w
    else (let w1 = if is_null (w.stack t) then w else record w { freed = w.stack t ∷ w.freed } in
        record w1 { tasks = (ListT.delete t w1.tasks).1; freed = t ∷ w1.freed })

-- The arguments that the function is called with, for `argc` of them.
abbrev pub arguments : (argc i : ℕ) → (ℕ → Ptr) → List Ptr
arguments zero i argv = []
arguments (suc argc) i argv = argv i ∷ arguments argc (i + 1) argv

-- The ladder of `_taskmain` over `argc`: the function is called with up to six arguments. With
-- more it is not called, and `exitstatus` is what happened to be there, `garbage`.
unfoldable pub call_main :
    (call : Ptr → List Ptr → World → ℕ × World) → (garbage : ℕ) → Ptr → World → ℕ × World
call_main call garbage t w =
    if leb (w.argc t) 6 then call (w.func t) (arguments (w.argc t) 0 (w.argv t)) w else (garbage, w)

-- What `_taskmain` does once the function has returned, up to the jump to the worker: the flag,
-- the status, the hook of the gather, and the user's callback.
unfoldable pub finish : (callback : Ptr → Ptr → World → World) → Ptr → ℕ → World → World
finish callback t exitstatus w =
    let w1 = record w { flags = update w.flags t (bit_or (w.flags t) task_terminated) } in
    let w2 =
      if is_null (w1.status t)
      then w1
      else record w1 { status_at = update w1.status_at (w1.status t) exitstatus } in
    let w3 = if w2.terminated t then Gather.taskterminated t w2 else w2 in
    if is_null (w3.callback t) then w3 else callback (w3.callback t) t w3

-- `_taskmain` in the thread `thread`: the context that it jumps to, NULL if the thread has none and
-- the function runs off its end, and the world that it leaves.
unfoldable pub taskmain :
    (call : Ptr → List Ptr → World → ℕ × World)
    → (callback : Ptr → Ptr → World → World) → (garbage : ℕ) → Tid
    → (p1 p2 : ℕ) → World
    → Ptr × World
unfolding Threadlocal.get
taskmain call callback garbage thread p1 p2 w =
    let t = join_pointer p1 p2 in
    let (exitstatus, w1) = call_main call garbage t w in
    let w2 = finish callback t exitstatus w1 in (Threadlocal.get thread w2.context_key, w2)
