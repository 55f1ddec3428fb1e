-- ===== src/Examples/Await.antt =====
-- examples/await.c: one task, which calls a function that gives way too.
use pcaio.Prelude.{
  ℕ, suc, ◌-◌, ◌==◌, update, false, ◌≡◌, refl, sym, ap, ◌∙◌, ◌≢◌, true, Option, none, some, List,
  [], ◌∷◌, ◌++◌, map, arith, Ptr, null, Tid, length, has, Distinct, subst,
}
use pcaio.World.{World}
use pcaio.Task.{System}
use pcaio.Task.Life.{Granted, made, new-eq, release}
use pcaio.Threadpool.Promise.{Grants}
use pcaio.Worker.{Round}
use pcaio.Worker.Plan.{Act}
use pcaio.Worker.Needs.{plan, total, AllBehave}
use pcaio.Master.{State, Callbacks, timeout_long}
use pcaio.Master.Reset.{Harmless}
use pcaio.Master.Work.{work}
use pcaio.Api.Run.{Answers, pcaio_run}
use pcaio.Api.Whole.{Willing}
use pcaio.Api.Complete.{starts, pcaio_completes}
use pcaio.Examples.{make_tasks}
use pcaio.Examples.Tasks.{IsNew, made-IsNew, IsNew-IsPrepared}

abbrev tasks_max : ℕ
tasks_max = 1

abbrev workers : ℕ
workers = 1

-- `_subtaskA`: the flags with which it calls `pcaio_relaxA`, and what it returns.
unfoldable pub subtask : List ℕ × ℕ
subtask = (0 ∷ 0 ∷ [], 73)

-- `_taskA`, the same.
unfoldable pub task : List ℕ × ℕ
unfolding subtask
task = let (relaxes, v) = subtask in (0 ∷ (relaxes ++ (0 ∷ [])), 0)

-- `pcaio(WORKERS, tasks, TASKS_MAX)` and the end of `main`, which returns EXIT_SUCCESS whatever
-- `pcaio` returned; none while the main loop runs.
unfoldable pub finish_main :
    {M : Type 0}
    → Tid
    → Callbacks M
    → Answers
    → List (State M → State M)
    → State M
    → List Ptr × World
    → Option (ℕ × State M)
finish_main thread cb answers rounds s (tasks, w) =
    elim (pcaio_run thread cb answers rounds workers tasks (record s { world = w })) [
      | none ↦ none
      | some (ret, s1) ↦ some (0, s1)
    ]

-- `main`.
unfoldable pub main :
    {M : Type 0}
    → (sys : ℕ → System) → (func : Ptr) → Tid
    → Callbacks M
    → Answers
    → List (State M → State M)
    → State M
    → Option (ℕ × State M)
unfolding finish_main
main sys func thread cb answers rounds s =
    finish_main thread cb answers rounds s (make_tasks sys func (λ i. []) tasks_max 0 s.world)

-- What a task does that calls `pcaio_relaxA(0)` so often and then returns.
abbrev pub turns_of : List ℕ × ℕ → List Act
turns_of (relaxes, code) = map (λ (flags : ℕ). none) relaxes ++ (some code ∷ [])

plan-alone :
    (code need : Ptr → ℕ) (t : Ptr) (relaxes : List ℕ)
    → need t ≡ length relaxes
    → plan (suc (length relaxes)) code need (t ∷ []) ≡ turns_of (relaxes, code t)
unfolding plan
plan-alone code need t [] e = let last : (need t == 0) ≡ true = ground arith in rw last refl
plan-alone code need t (f ∷ fs) e =
    let more : (need t == 0) ≡ false = ground arith in
    rw more (
      ap (λ (l : List Act). none ∷ l)
        (plan-alone code (update need t (need t - 1)) t fs (ground arith)))

AllBehave-length : (os : List Act) (rs : List Round) → AllBehave os rs → length rs ≡ length os
AllBehave-length [] rs g = ap length g
AllBehave-length (o ∷ os) [] g = absurd g
AllBehave-length (o ∷ os) (r ∷ rs) g = ap suc (AllBehave-length os rs g.1)

alone :
    (t : Ptr) (es : List Ptr) → Distinct es → ((a : Ptr) → has a es ≡ has a (t ∷ [])) → es ≡ t ∷ []
alone t [] d same = absurd (let wrong = same t in ground arith)
alone t (x ∷ []) d same = ground (arith, same x)
alone t (x ∷ y ∷ es) d same = absurd (let h = same x in let k = same y in ground arith)

make_tasks-one :
    (sys : ℕ → System) (func : Ptr) (w : World)
    → Granted (sys 0)
    → func ≢ null
    → make_tasks sys func (λ i. []) tasks_max 0 w
      ≡ ((sys 0).task ∷ [], made (sys 0) func null 0 [] w)
unfolding make_tasks
make_tasks-one sys func w g f =
    ap (λ (r : Ptr × World). (r.0 ∷ [], r.1)) (new-eq (sys 0) func null 0 [] w g f)

-- The whole of await.c. Its task calls `pcaio_relaxA(0)` four times, of which two are in the function
-- that it calls and whose result it drops, and returns 0. The system grants everything, the library is
-- new and without modules, and one worker runs, for as long as the task goes on, and nothing else
-- happens. Then this takes five turns, the main loop ends by itself, the task and its stack are freed,
-- once, and `main` returns 0.
pub await_completes :
    {M : Type 0} (sys : ℕ → System) (func : Ptr) (thread worker : Tid) (landing : Ptr) (err : ℕ)
    (cb : Callbacks M) (answers : Answers) (threads : ℕ → Tid) (rs : List Round) (s : State M)
    → Granted (sys 0)
    → func ≢ null
    → IsNew s.world []
    → s.workers ≡ 0
    → s.modulescount ≡ 0
    → Harmless cb
    → ((v : State M) → cb.sleep timeout_long v ≡ v)
    → Willing answers threads
    → Grants answers.grow
    → Grants answers.shrink
    → AllBehave (turns_of task) rs
    → (task ≡ (0 ∷ 0 ∷ 0 ∷ 0 ∷ [], 0))
      × (length rs ≡ 5)
      × (final : State M) × (main sys func thread cb answers
            (starts worker landing err ∷ map (work worker) rs)
            s
          ≡ some (0, final))
      × (final.world.freed ≡ (sys 0).task ∷ (sys 0).stack ∷ s.world.freed)
      × (final.workers ≡ 0)
unfolding main finish_main task total release
await_completes sys func thread worker landing err cb answers threads rs s g f n idle bare h sleeps
      willing grows shrinks behave =
    let t = (sys 0).task in
    let w = made (sys 0) func null 0 [] s.world in
    let code : Ptr → ℕ = λ a. 0 in
    let need : Ptr → ℕ = λ a. 4 in
    let new = made-IsNew (sys 0) func 0 [] s.world g n refl (omega arith) in
    let five : length rs ≡ 5 = AllBehave-length (turns_of task) rs behave in
    let turns : plan (length rs) code need (t ∷ []) ≡ turns_of task =
      rw five (plan-alone code need t (0 ∷ 0 ∷ 0 ∷ 0 ∷ []) refl) in
    let (final, es, ran, freed, once, all, stopped) =
      pcaio_completes thread worker landing err cb answers threads rs code need workers t []
        (t ∷ []) (record s { world = w }) h sleeps willing grows shrinks
        (IsNew-IsPrepared s w (t ∷ []) idle bare new (g.0, tt)) (omega (arith, five))
        (subst (λ (os : List Act). AllBehave os rs) (sym turns) behave) in
    (
      refl,
      five,
      final,
      ap (finish_main thread cb answers (starts worker landing err ∷ map (work worker) rs) s)
            (make_tasks-one sys func s.world g f)
          ∙ rw (finish_main, ran) refl,
      freed
          ∙ ap (λ (l : List Ptr). release w.stack l w.freed) (alone t es once all)
          ∙ ground (arith, g),
      stopped,
    )
