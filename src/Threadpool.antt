-- ===== src/Threadpool.antt =====
-- pcaio/threadpool.c: the array of worker threads, and how it grows and shrinks.
pub mod Loops
pub mod Scale
pub mod Promise
mod Tests
use pcaio.Prelude.{
  ℕ, zero, suc, ◌+◌, ◌-◌, ◌%◌, ◌^◌, Bool, true, false, Option, none, some, List, [], ◌∷◌, ltb, ◌==◌,
  if◌then◌else◌, Ptr, null, is_null, update, Status, done, failed, Tid,
}

-- `struct threadpool`, less `starter` and `taskq`, which are only handed to `pthread_create`.
-- `count` is an `atomic_ushort`; `cancelled` and `joined` are the threads for which
-- `pthread_cancel` and `pthread_join` succeeded, the latest first; `errno` is the error code that
-- the functions leave, and `ready` says whether the array and the mutex exist.
pub record Threadpool : Type 0 where
  pub count : ℕ
  pub threads : ℕ → Tid
  pub mutex : Bool
  pub cancelled : List Tid
  pub joined : List Tid
  pub errno : ℕ
  pub ready : Bool

-- What a call of `pthread_create` comes to.
pub data Created : Type 0 where
  thread : Tid → Created
  error : ℕ → Created

-- What the system answers during one call of `threadpool_scale`, at each index of the array:
-- `pthread_create`, and the error codes of `pthread_cancel` and `pthread_join`, 0 for none.
pub record System : Type 0 where
  pub create : ℕ → Created
  pub cancel : ℕ → ℕ
  pub join : ℕ → ℕ

abbrev lock : Threadpool → Threadpool
lock tp = record tp { mutex = true }

abbrev unlock : Status × Threadpool → Status × Threadpool
unlock r = (r.0, record r.1 { mutex = false })

-- `threadpool_init`: `threads` is what `calloc` returns, `none` for NULL, and `err` is what
-- `pthread_mutex_init` returns. What was there before is overwritten.
unfoldable pub init : Ptr → Option (ℕ → Tid) → (err : ℕ) → Threadpool → Status × Threadpool
init p none err tp = (failed, tp)
init p (some threads) err tp =
    if is_null p
    then (failed, tp)
    else (if err == 0
        then (done, record tp { count = 0; threads = threads; mutex = false; ready = true })
        else (failed, record tp { errno = err }))

-- `threadpool_deinit`: it refuses while threads run, and otherwise destroys the mutex and frees the
-- array.
unfoldable pub deinit : Ptr → Threadpool → Status × Threadpool
deinit p tp =
    if is_null p
    then (failed, tp)
    else (if tp.count == 0 then (done, record tp { ready = false }) else (failed, tp))

-- The loop of `_scaleup`, with `left` indices from `i` to go.
unfoldable pub create_from : System → (left i : ℕ) → Threadpool → Status × Threadpool
create_from sys zero i tp = (done, tp)
create_from sys (suc left) i tp = elim (sys.create i) [
  | thread t ↦
      create_from sys left (i + 1)
        (record tp { threads = update tp.threads i t; count = (tp.count + 1) % 2 ^ 16 })
  | error e ↦ (failed, record tp { errno = e })
]

unfoldable pub scaleup : System → ℕ → Threadpool → Status × Threadpool
scaleup sys count tp = unlock (create_from sys count tp.count (lock tp))

-- The first loop of `_scaledown`: the indices from `target + left - 1` down to `target`.
unfoldable pub cancel_down : System → (left target : ℕ) → Threadpool → Status × Threadpool
cancel_down sys zero target tp = (done, tp)
cancel_down sys (suc left) target tp = elim (sys.cancel (target + left)) [
  | zero ↦
      cancel_down sys left target
        (record tp { cancelled = tp.threads (target + left) ∷ tp.cancelled })
  | suc e ↦ (failed, record tp { errno = suc e })
]

-- The second loop, over the same indices.
unfoldable pub join_down : System → (left target : ℕ) → Threadpool → Status × Threadpool
join_down sys zero target tp = (done, tp)
join_down sys (suc left) target tp = elim (sys.join (target + left)) [
  | zero ↦ join_down sys left target (record tp {
    joined = tp.threads (target + left) ∷ tp.joined;
    count = (tp.count + (2 ^ 16 - 1)) % 2 ^ 16;
  })
  | suc e ↦ (failed, record tp { errno = suc e })
]

-- Both loops, the second only if the first succeeds.
join_if : System → (left target : ℕ) → Status × Threadpool → Status × Threadpool
join_if sys left target (done, tp) = join_down sys left target tp
join_if sys left target (failed, tp) = (failed, tp)

unfoldable pub scaledown : System → ℕ → Threadpool → Status × Threadpool
unfolding join_if
scaledown sys count tp =
    if ltb tp.count count
    then (failed, tp)
    else (let target = tp.count - count in
        unlock (join_if sys count target (cancel_down sys count target (lock tp))))

unfoldable pub scale : System → Ptr → ℕ → Threadpool → Status × Threadpool
scale sys p count tp =
    if is_null p
    then (failed, tp)
    else (if ltb count tp.count
        then scaledown sys (tp.count - count) tp
        else (if ltb tp.count count then scaleup sys (count - tp.count) tp else (done, tp)))

unfoldable pub kill_from : (kill : Tid → ℕ) → (left i : ℕ) → Threadpool → Status
kill_from kill zero i tp = done
kill_from kill (suc left) i tp = elim (kill (tp.threads i)) [
  | zero ↦ kill_from kill left (i + 1) tp
  | suc e ↦ failed
]

-- `threadpool_killall`; `kill` is what `pthread_kill` answers for the signal.
unfoldable pub killall : (kill : Tid → ℕ) → Threadpool → Status
unfolding kill_from
killall kill tp = kill_from kill tp.count 0 tp
