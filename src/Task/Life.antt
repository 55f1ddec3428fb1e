-- ===== src/Task/Life.antt =====
-- `task_new` and `task_free` of pcaio/task.c: the memory, and the list of the tasks.
use pcaio.Prelude.{
  ℕ, ◌+◌, ◌^◌, ◌<◌, ◌≡◌, refl, sym, subst, ◌⊎◌, ◌∙◌, ap₂, ◌≢◌, false, List, [], ◌∷◌, ◌++◌, arith,
  if◌then◌else◌, Ptr, null, is_null, update, length, has, remove,
}
use pcaio.ListT
use pcaio.ListT.{DList}
use pcaio.ListT.Refine.{IsList, append-outside, clear-IsList}
use pcaio.ListT.Delete.{delete_refines}
use pcaio.World.{World}
use pcaio.Task.{System, filled, new, free, split_pointer, arguments, copy_args}
use pcaio.Task.Main.{arguments-copy_args}

-- The memory of a task: its stack, if it has one, and then the task itself.
abbrev pub released : Ptr → World → List Ptr
released t w = t ∷ (if is_null (w.stack t) then w.freed else w.stack t ∷ w.freed)

-- What is given to `free`, the latest first, when the tasks `zs` go in this order: for each its
-- stack, if it has one, and then the task itself.
unfoldable pub release : (stack : Ptr → Ptr) → List Ptr → List Ptr → List Ptr
release stack [] freed = freed
release stack (z ∷ zs) freed =
    release stack zs (z ∷ (if is_null (stack z) then freed else stack z ∷ freed))

-- With a well-formed list of tasks, `task_free` of a task that is not NULL takes it from the list,
-- frees its stack, if it has one, and the task, and changes neither the queue nor a flag.
pub free_lem :
    (w : World) {zs : List Ptr} (t : Ptr)
    → IsList w.tasks zs
    → t ≢ null
    → IsList (free t w).tasks (remove t zs)
      × ((free t w).freed ≡ released t w)
      × ((free t w).taskq ≡ w.taskq)
      × ((free t w).flags ≡ w.flags)
unfolding free
free_lem w {zs} t l n =
    (rw tasks_after (delete_refines t l).1, ground arith, ground arith, ground arith)
  where
    tasks_after : (free t w).tasks ≡ (ListT.delete t w.tasks).1
    tasks_after = ground arith

-- The system grants what `task_new` asks for.
abbrev pub Granted : System → Type 0
Granted sys = (sys.task ≢ null) × (sys.context ≡ 0) × (sys.stack ≢ null)

-- The world once `task_new` has succeeded.
abbrev pub made : System → (func status : Ptr) → (argc : ℕ) → List Ptr → World → World
made sys func status argc args w =
    let w1 = filled sys.task func status argc args w in
    record w1 {
      stack = update w1.stack sys.task sys.stack;
      entry = update w1.entry sys.task (split_pointer sys.task);
      tasks = (ListT.append sys.task w1.tasks).1;
    }

pub new-eq :
    (sys : System) (func status : Ptr) (argc : ℕ) (args : List Ptr) (w : World)
    → Granted sys
    → func ≢ null
    → new sys func status argc args w ≡ (sys.task, made sys func status argc args w)
unfolding new
new-eq sys func status argc args w g f = ground arith

-- What a new task is: on the list, with a stack, no flag and no hook, its arguments in order, and
-- its own address in the words for `_taskmain`.
pub record Fresh (sys : System) (func : Ptr) (args zs : List Ptr) (w : World) (out : Ptr × World)
    : Type 0 where
  pub is_task : out.0 ≡ sys.task
  pub alive : IsList out.1.tasks (zs ++ (sys.task ∷ []))
  pub no_flags : out.1.flags sys.task ≡ 0
  pub no_hook : out.1.terminated sys.task ≡ false
  pub stack : out.1.stack sys.task ≡ sys.stack
  pub entry : out.1.entry sys.task ≡ split_pointer sys.task
  pub calls : out.1.func sys.task ≡ func
  pub arguments : arguments (out.1.argc sys.task) 0 (out.1.argv sys.task) ≡ args
  pub freed : out.1.freed ≡ w.freed

-- If there is a function, the system grants memory and context, and the task is new to the list,
-- `task_new` puts at the end of the list a task with a stack, no flag and no hook, which holds its
-- arguments in order and its own address for `_taskmain`.
pub new-Fresh :
    (sys : System) (func status : Ptr) (args : List Ptr) (w : World) {zs : List Ptr}
    → Granted sys
    → func ≢ null
    → IsList w.tasks zs
    → has sys.task zs ≡ false
    → length zs + 1 < 2 ^ 64
    → Fresh sys func args zs w (new sys func status (length args) args w)
new-Fresh sys func status args w {zs} g f l out room =
    subst (Fresh sys func args zs w) (sym (new-eq sys func status (length args) args w g f))
      (record {
        is_task = refl;
        alive = (append-outside sys.task (clear-IsList sys.task l out) g.0 out room).1;
        no_flags = ground arith;
        no_hook = ground arith;
        stack = ground arith;
        entry = ground arith;
        calls = ground arith;
        arguments =
            ap₂ (λ n (a : ℕ → Ptr). arguments n 0 a) count copied
            ∙ arguments-copy_args (length args) args (λ _. null) 0 (omega arith);
        freed = refl;
      })
  where
    v : World
    v = made sys func status (length args) args w

    count : v.argc sys.task ≡ length args
    count = ground arith

    copied : v.argv sys.task ≡ copy_args (length args) (length args) args (λ _. null)
    copied = ground arith

-- If the system refuses something, `task_new` returns NULL, keeps the list, and has freed the
-- block for the task if it had got it.
pub new-refused :
    (sys : System) (func status : Ptr) (argc : ℕ) (args : List Ptr) (w : World)
    → (func ≡ null) ⊎ ((sys.task ≡ null) ⊎ ((sys.context ≢ 0) ⊎ (sys.stack ≡ null)))
    → let (t, v) = new sys func status argc args w in
      (t ≡ null)
      × (v.tasks.head ≡ w.tasks.head)
      × (v.tasks.count ≡ w.tasks.count)
      × ((v.freed ≡ w.freed) ⊎ ((sys.task ≢ null) × (v.freed ≡ sys.task ∷ w.freed)))
unfolding new
new-refused sys func status argc args w h = (ground arith, ground arith, ground arith, ground arith)
