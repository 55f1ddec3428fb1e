-- ===== src/Task/Main.antt =====
-- `_taskmain` of pcaio/task.c: which task it finds, with what it calls its function, and what it
-- leaves behind.
use Prim.Native.Nat.{bit_or, bit_and}
use pcaio.Prelude.{
  ℕ, zero, suc, ◌+◌, ◌-◌, ◌*◌, ◌/◌, ◌%◌, ◌^◌, ◌≤◌, ◌<◌, ◌≡◌, refl, ◌≢◌, ◌∙◌, ap, ap₂, sym, true,
  false, List, [], ◌∷◌, arith, leb, Ptr, null, update, length, Tid,
}
use pcaio.Prelude.Bits.{bit_and_low, bit_or_join, bit_and-flag, flag, flag-bit_or}
use pcaio.Threadlocal.{Key}
use pcaio.World.{World, task_terminated}
use pcaio.Task.{split_pointer, join_pointer, copy_args, arguments, call_main, finish, taskmain}

-- The two words that `makecontext` passes on give the pointer back.
pub join-split_pointer :
    (p : Ptr) → p < 2 ^ 64 → join_pointer (split_pointer p).0 (split_pointer p).1 ≡ p
unfolding split_pointer join_pointer
join-split_pointer p h =
    let low : bit_and p 0xffffffff ≡ p % 2 ^ 32 = bit_and_low 32 p in
    let high : p / 2 ^ 32 % 2 ^ 32 * 2 ^ 32 % 2 ^ 64 ≡ p / 2 ^ 32 * 2 ^ 32 = omega arith in
    ap₂ bit_or high low ∙ bit_or_join 32 (p / 2 ^ 32) (p % 2 ^ 32) (omega arith) ∙ omega arith

-- What stands in the array below the first index that is still to be written stays.
copy_args-below :
    (argc left : ℕ) (args : List Ptr) (argv : ℕ → Ptr) (i : ℕ)
    → left ≤ argc
    → i < argc - left
    → copy_args argc left args argv i ≡ argv i
unfolding copy_args
copy_args-below argc zero args argv i h lt = refl
copy_args-below argc (suc left) [] argv i h lt = refl
copy_args-below argc (suc left) (a ∷ args) argv i h lt =
    copy_args-below argc left args (update argv (argc - suc left) a) i (omega arith) (omega arith)
    ∙ ground arith

-- The arguments are copied in their order, and read back in it.
pub arguments-copy_args :
    (argc : ℕ) (args : List Ptr) (argv : ℕ → Ptr) (i : ℕ)
    → i + length args ≡ argc
    → arguments (length args) i (copy_args argc (length args) args argv) ≡ args
unfolding copy_args
arguments-copy_args argc [] argv i h = refl
arguments-copy_args argc (a ∷ args) argv i h =
    let argv1 = update argv (argc - suc (length args)) a in
    ap₂ ◌∷◌
      (copy_args-below argc (length args) args argv1 i (omega arith) (omega arith) ∙ ground arith)
      (arguments-copy_args argc args argv1 (i + 1) (omega arith))

-- A task that holds its arguments as `task_new` copies them has its function called with exactly
-- these, if there are at most six.
pub call_main-args :
    (call : Ptr → List Ptr → World → ℕ × World) (garbage : ℕ) (t : Ptr) (args : List Ptr)
    (argv : ℕ → Ptr) (w : World)
    → w.argc t ≡ length args
    → w.argv t ≡ copy_args (length args) (length args) args argv
    → length args ≤ 6
    → call_main call garbage t w ≡ call (w.func t) args w
unfolding call_main
call_main-args call garbage t args argv w count copied few =
    let test : leb (w.argc t) 6 ≡ true = ground arith in
    rw (test, count, copied)
      (ap (λ l. call (w.func t) l w) (arguments-copy_args (length args) args argv 0 (omega arith)))

call_main-many :
    (call : Ptr → List Ptr → World → ℕ × World) (garbage : ℕ) (t : Ptr) (w : World)
    → 6 < w.argc t
    → call_main call garbage t w ≡ (garbage, w)
unfolding call_main
call_main-many call garbage t w many = ground arith

-- The flag that the worker looks for is set, whatever the flags were.
pub terminated_flag : (f : ℕ) → bit_and (bit_or f task_terminated) task_terminated ≡ 1
unfolding flag
terminated_flag f = bit_and-flag 0 (bit_or f 1) ∙ omega (arith, flag-bit_or 0 f 1)

-- What is left of `w` once the task `t` has ended with `code`: the flag that tells the worker to
-- dispose of it, the status where the user asked for it, and the queue and both lists as they were.
pub record Ended (t : Ptr) (code : ℕ) (w v : World) : Type 0 where
  pub flagged : bit_and (v.flags t) task_terminated ≡ 1
  pub reported : v.status_at (w.status t) ≡ code
  pub queue : v.taskq ≡ w.taskq
  pub alive : v.tasks ≡ w.tasks
  pub freed : v.freed ≡ w.freed
  pub contexts : v.context_key ≡ w.context_key

finish-Ended :
    (callback : Ptr → Ptr → World → World) (t : Ptr) (code : ℕ) (w : World)
    → w.terminated t ≡ false
    → w.callback t ≡ null
    → w.status t ≢ null
    → Ended t code w (finish callback t code w)
unfolding finish
finish-Ended callback t code w hook cb st = record {
  flagged =
      let set : (finish callback t code w).flags t ≡ bit_or (w.flags t) task_terminated =
        ground arith in
      rw set (terminated_flag (w.flags t));
  reported = ground arith;
  queue = ground arith;
  alive = ground arith;
  freed = ground arith;
  contexts = ground arith;
}

-- The wrapper, once it has found its task.
taskmain-eq :
    (call : Ptr → List Ptr → World → ℕ × World) (callback : Ptr → Ptr → World → World) (garbage : ℕ)
    (thread : Tid) (t : Ptr) (w v : World) (code : ℕ)
    → t < 2 ^ 64
    → call_main call garbage t w ≡ (code, v)
    → taskmain call callback garbage thread (split_pointer t).0 (split_pointer t).1 w
      ≡ ((finish callback t code v).context_key.value thread, finish callback t code v)
unfolding taskmain
taskmain-eq call callback garbage thread t w v code small e = rw (join-split_pointer t small, e)

-- A task that holds its arguments as `task_new` copies them, at most six, has its function called
-- with exactly these. If the function leaves it without a hook and without a callback, but with a
-- place for its status, the wrapper then flags the task as ended, reports what the function
-- returned, and lands in the context of its thread.
pub taskmain-runs :
    (call : Ptr → List Ptr → World → ℕ × World) (callback : Ptr → Ptr → World → World) (garbage : ℕ)
    (thread : Tid) (t : Ptr) (args : List Ptr) (argv : ℕ → Ptr) (w v : World) (code : ℕ)
    → t < 2 ^ 64
    → w.argc t ≡ length args
    → w.argv t ≡ copy_args (length args) (length args) args argv
    → length args ≤ 6
    → call (w.func t) args w ≡ (code, v)
    → v.terminated t ≡ false
    → v.callback t ≡ null
    → v.status t ≢ null
    → let (ctx, u) =
        taskmain call callback garbage thread (split_pointer t).0 (split_pointer t).1 w in
      Ended t code v u × (ctx ≡ v.context_key.value thread)
taskmain-runs call callback garbage thread t args argv w v code small count copied few runs hook cb
      st =
    let ended = finish-Ended callback t code v hook cb st in
    let called = call_main-args call garbage t args argv w count copied few ∙ runs in
    rw (taskmain-eq call callback garbage thread t w v code small called)
      (ended, ap (λ (k : Key). k.value thread) ended.contexts)

-- A task with more than six arguments, with a place for its status, no hook and no callback, does
-- not have its function called: whatever that would do, the task ends in the same state, and the
-- status that it reports is what happened to be in memory.
pub taskmain_skips :
    (call call' : Ptr → List Ptr → World → ℕ × World) (callback : Ptr → Ptr → World → World)
    (garbage : ℕ) (thread : Tid) (t : Ptr) (w : World)
    → t < 2 ^ 64
    → 6 < w.argc t
    → w.status t ≢ null
    → w.terminated t ≡ false
    → w.callback t ≡ null
    → let ended = λ (f : Ptr → List Ptr → World → ℕ × World).
      taskmain f callback garbage thread (split_pointer t).0 (split_pointer t).1 w in
      (ended call ≡ ended call') × ((ended call).1.status_at (w.status t) ≡ garbage)
taskmain_skips call call' callback garbage thread t w small many st hook cb =
    let e =
      taskmain-eq call callback garbage thread t w w garbage small
        (call_main-many call garbage t w many) in
    let e' =
      taskmain-eq call' callback garbage thread t w w garbage small
        (call_main-many call' garbage t w many) in
    (
      e ∙ sym e',
      ap (λ (r : Ptr × World). r.1.status_at (w.status t)) e
          ∙ (finish-Ended callback t garbage w hook cb st).reported,
    )
