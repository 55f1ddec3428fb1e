-- ===== src/Master.antt =====
-- pcaio/master.c: the main thread. It runs the modules while there are tasks, and then stops the
-- workers and frees what is left. `pcaio_module_install` of pcaio/pcaio.c stands here too.
pub mod Modules
pub mod Loop
pub mod Panic
pub mod Round
pub mod Work
pub mod Team
pub mod Teardown
pub mod Whole
pub mod Setup
pub mod Reset
pub mod Restart
pub mod Samples
mod Tests
use Prim.Native.Nat.{bit_or, bit_and}
use pcaio.Prelude.{
  ℕ, zero, suc, Tid, ◌+◌, Bool, true, false, not, ◌&&◌, ◌||◌, Option, none, some, List, [], ◌∷◌,
  ltb, ◌==◌, if◌then◌else◌, Ptr, null, is_null, update, Status, done, failed,
}
use pcaio.World.{World}
use pcaio.ListT
use pcaio.Threadlocal
use pcaio.Threadpool
use pcaio.Threadpool.{Threadpool}
use pcaio.Task

-- `CONFIG_PCAIO_MODULES_MAX` and the two timeouts, in microseconds, and `MOD_PANIC`.
abbrev pub modules_max : ℕ
modules_max = 8

abbrev pub timeout_short : ℕ
timeout_short = 5000

abbrev pub timeout_long : ℕ
timeout_long = 50000

abbrev pub mod_panic : ℕ
mod_panic = 0x1

-- `enum pcaio_module_tickstatus`; `pms_invalid` is the -1 that a tick may return, which names no
-- status.
pub data TickStatus : Type 0 where
  pms_idle pms_panic pms_again pms_invalid : TickStatus

-- `struct master`, with the tasks and the queue in `world`, the flags of the modules, and `memory`,
-- what the modules keep themselves behind the `struct pcaio_iomodule` that they install.
pub record State (M : Type 0) : Type 0 where
  pub workers : ℕ
  pub cancel : Bool
  pub world : World
  pub pool : Threadpool
  pub modulescount : ℕ
  pub modules : ℕ → Ptr
  pub module_flags : Ptr → ℕ
  pub memory : M

-- The functions of the modules, with which of them are not NULL, and `sleep`, what other threads do
-- while the main thread is in `usleep`.
pub record Callbacks (M : Type 0) : Type 0 where
  pub has_init : Ptr → Bool
  pub init : Ptr → State M → Status × State M
  pub has_dtor : Ptr → Bool
  pub dtor : Ptr → State M → Status × State M
  pub has_tick : Ptr → Bool
  pub tick : Ptr → (timeout : ℕ) → State M → TickStatus × State M
  pub sleep : ℕ → State M → State M

-- `pcaio_module_install`.
unfoldable pub module_install : {M : Type 0} → Ptr → State M → Status × State M
module_install m s = if s.modulescount == modules_max then (failed, s) else (
  done,
  record s {
    module_flags = update s.module_flags m 0;
    modules = update s.modules s.modulescount m;
    modulescount = s.modulescount + 1;
  },
)

-- The body of the loop over the modules: `any` is set if the module says that it has more to do,
-- and a module that panics is marked.
unfoldable pub tick_one :
    {M : Type 0} → Callbacks M → (timeout : ℕ) → Ptr → Bool → State M → Bool × State M
tick_one cb timeout m any s =
    let (status, s1) = cb.tick m timeout s in
    if (bit_and (s.module_flags m) mod_panic == 0) && cb.has_tick m
    then elim status [
      | pms_idle ↦ (any, s1)
      | pms_again ↦ (true, s1)
      | _ ↦ (
        any,
        record s1 {
          module_flags = update s1.module_flags m (bit_or (s1.module_flags m) mod_panic);
        },
      )
    ]
    else (any, s)

-- The loop over the modules from `i` on. There are never more than `modules_max`, so that many
-- rounds are enough.
unfoldable pub tick_from :
    {M : Type 0} → Callbacks M → (timeout fuel i : ℕ) → Bool → State M → Bool × State M
tick_from cb timeout zero i any s = (any, s)
tick_from cb timeout (suc fuel) i any s =
    let (any1, s1) = tick_one cb timeout (s.modules i) any s in
    let rest = tick_from cb timeout fuel (i + 1) any1 s1 in
    if ltb i s.modulescount then rest else (any, s)

-- One round of the main loop, whose condition holds.
unfoldable pub tick_all : {M : Type 0} → Callbacks M → Bool → State M → Bool × State M
tick_all cb any s =
    if any
    then tick_from cb timeout_short modules_max 0 false s
    else tick_from cb timeout_long modules_max 0 false (cb.sleep timeout_long s)

-- The condition of the main loop.
abbrev pub goes_on : {M : Type 0} → State M → Bool
goes_on s = not s.cancel && not (s.world.tasks.count == 0)

pub data Looped (M : Type 0) : Type 0 where
  ended : State M → Looped M
  running : State M → Looped M

-- The main loop. Each round has what the other threads do before the condition is read; with none
-- left the loop still runs.
unfoldable pub main_loop :
    {M : Type 0} → Callbacks M → List (State M → State M) → Bool → State M → Looped M
main_loop cb [] any s = running s
main_loop cb (others ∷ rounds) any s =
    let s1 = others s in
    let (any1, s2) = tick_all cb any s1 in
    let rest = main_loop cb rounds any1 s2 in if goes_on s1 then rest else ended s1

-- `&t`, `&state.pool`: the address of a variable is not NULL.
abbrev pub address : Ptr
address = 1

-- The loop that frees the tasks that are left: a round for each task, and one that ends it.
unfoldable pub free_all : (fuel : ℕ) → World → World
free_all zero w = w
free_all (suc fuel) w =
    let (s, t, l) = ListT.pop address w.tasks in
    elim t [
      | none ↦ record w { tasks = l }
      | some t ↦ free_all fuel (Task.free t (record w { tasks = l }))
    ]

-- `master` in the thread `thread`, by what the system answers to the two calls of
-- `threadpool_scale`, and by what `pthread_setspecific` returns, `err`. The result is none while the
-- main loop runs.
unfoldable pub master :
    {M : Type 0}
    → Tid
    → (err : ℕ) → Callbacks M
    → (grow shrink : Threadpool.System) → List (State M → State M)
    → State M
    → Option (Status × State M)
unfolding Threadlocal.set
master thread err cb grow shrink rounds s =
    let (scaled, pool) = Threadpool.scale grow address s.workers s.pool in
    let context_key = (Threadlocal.set err thread null s.world.context_key).1 in
    let s0 = record s { pool = pool; world = record s.world { context_key = context_key } } in
    elim scaled [
      | failed ↦ some (failed, record s { pool = pool })
      | done ↦ elim (main_loop cb rounds true s0) [
        | running s1 ↦ none
        | ended s1 ↦
            (let (ret, pool1) = Threadpool.scale shrink address 0 s1.pool in
              some (
                ret,
                record s1 { pool = pool1; world = free_all (s1.world.tasks.count + 1) s1.world },
              ))
      ]
    ]
