-- ===== src/Threadlocal.antt =====
-- The thread-local storage of pcaio/threadlocalT.h and pcaio/threadlocalT.c: one pthread key with a
-- pointer for each thread. task.c instantiates it for the task that a thread runs, context.c for
-- the context to which a task returns.
use pcaio.Prelude.{
  ℕ, Bool, true, false, ◌==◌, if◌then◌else◌, Ptr, null, update, Status, done, failed, Tid,
}

-- The key behind `_T_storage`: whether it exists, the destructor that was registered with it, what
-- each thread stores under it, and the error code that the functions leave in `errno`.
pub record Key : Type 0 where
  pub exists : Bool
  pub dtor : Ptr
  pub value : Tid → Ptr
  pub errno : ℕ

-- `_init`; `err` is what `pthread_key_create` returns. A new key holds NULL in every thread.
unfoldable pub init : (err : ℕ) → (dtor : Ptr) → Key → Status × Key
init err dtor k =
    if err == 0
    then (done, record k { exists = true; dtor = dtor; value = λ _. null })
    else (failed, record k { errno = err })

-- `_set` in the thread `thread`; `err` is what `pthread_setspecific` returns.
unfoldable pub set : (err : ℕ) → Tid → Ptr → Key → Status × Key
set err thread v k =
    if err == 0
    then (done, record k { value = update k.value thread v })
    else (failed, record k { errno = err })

-- `_get`, which hands NULL on as it is.
unfoldable pub get : Tid → Key → Ptr
get thread k = k.value thread

-- `_delete` runs no destructor.
unfoldable pub delete : Key → Key
delete k = record k { exists = false }
