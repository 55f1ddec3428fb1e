-- ===== src/QueueT.antt =====
-- The FIFO template of include/pcaio/queueT.h and include/pcaio/queueT.c, which task.c
-- instantiates as `taskqueue`: a singly linked chain through a field of its elements.
pub mod Chain
pub mod Fifo
pub mod Pop
pub mod Batch
pub mod Run
mod Tests
use pcaio.Prelude.{
  ℕ, ◌+◌, ◌-◌, ◌%◌, ◌^◌, Bool, true, false, not, ◌||◌, Option, none, some, List, [], ◌∷◌, ◌==◌,
  if◌then◌else◌, Ptr, null, is_null, update, Status, done, failed, length,
}

-- What a thread does to the condition variable.
pub data Wake : Type 0 where
  signal broadcast : Wake

-- `struct T##queue`. `mutex` says whether the mutex is held, `condition` is what was called on the
-- condition variable, the latest call first, and `next` is the field `T##queue_next` of every
-- element.
pub record Queue : Type 0 where
  pub head : Ptr
  pub tail : Ptr
  pub count : ℕ
  pub condition : List Wake
  pub mutex : Bool
  pub next : Ptr → Ptr

-- `size_t` addition, and the subtraction of one.
abbrev pub add_size : ℕ → ℕ → ℕ
add_size a b = (a + b) % 2 ^ 64

abbrev pub pred_size : ℕ → ℕ
pred_size a = (a + (2 ^ 64 - 1)) % 2 ^ 64

unfoldable pub init : (Ptr → Ptr) → Queue
init next = record {
  head = null;
  tail = null;
  count = 0;
  condition = [];
  mutex = false;
  next = next;
}

unfoldable pub deinit : Queue → Queue
deinit q = record q { head = null; tail = null; count = 0 }

abbrev pub lock : Queue → Queue
lock q = record q { mutex = true }

abbrev pub unlock : Queue → Queue
unlock q = record q { mutex = false }

-- The guard of `push` and `pushall`: `v` is linked, or it is the last element.
unfoldable pub refuses : Queue → Ptr → Bool
refuses q v = not (is_null (q.next v)) || v == q.tail

-- `v` behind the last element, or as the only one.
unfoldable pub link : Ptr → Queue → Queue
link v q =
    if is_null q.tail
    then record q { head = v; tail = v }
    else record q { next = update q.next q.tail v; tail = v }

unfoldable pub push : Ptr → Queue → Status × Queue
unfolding refuses link
push v q =
    if refuses q v
    then (failed, q)
    else (let q1 = link v (lock q) in
        let q2 = record q1 { count = add_size q1.count 1; next = update q1.next v null } in
        (done, unlock (record q2 { condition = signal ∷ q2.condition })))

-- The first loop of `pushall`: does some element fail the guard?
unfoldable pub refuses_any : Queue → List Ptr → Bool
unfolding refuses
refuses_any q [] = false
refuses_any q (v ∷ vs) = refuses q v || refuses_any q vs

-- The second loop of `pushall`, over `v[1]` to `v[count - 1]`.
unfoldable pub chain_rest : List Ptr → Queue → Queue
chain_rest [] q = q
chain_rest (v ∷ vs) q = chain_rest vs (record q { next = update q.next q.tail v; tail = v })

unfoldable pub chain_all : Ptr → List Ptr → Queue → Queue
unfolding chain_rest
chain_all v vs q =
    let q1 = if is_null q.tail then record q { tail = v; head = v } else q in
    let q2 = chain_rest vs q1 in
    record q2 {
      count = add_size q2.count (length (v ∷ vs));
      next = update q2.next q2.tail null;
      condition = broadcast ∷ q2.condition;
    }

unfoldable pub pushall : List Ptr → Queue → Status × Queue
unfolding refuses_any chain_all
pushall [] q = (failed, q)
pushall (v ∷ vs) q =
    if refuses_any q (v ∷ vs) then (failed, q) else (done, unlock (chain_all v vs (lock q)))

-- What a call of `pop` comes to: an element, -1, or a thread that still waits.
pub data Popped : Type 0 where
  got : Ptr → Queue → Popped
  empty : Queue → Popped
  waiting : Queue → Popped

-- The first element leaves. The caller has seen that there is one.
unfoldable pub take_head : Queue → Popped
take_head q =
    let o = q.head in
    let q1 =
      if is_null (q.next o)
      then record q { head = null; tail = null }
      else record q { head = q.next o; next = update q.next o null } in
    got o (unlock (record q1 { count = pred_size q1.count }))

-- The loop around `pthread_cond_wait`. Each round has what that call comes to: `none` if it fails,
-- `some q` if the thread wakes and finds the queue to be `q`, which it then holds. With no round
-- left the thread still waits, and the mutex is free meanwhile.
unfoldable pub await_head : List (Option Queue) → Queue → Popped
unfolding take_head
await_head [] q = if is_null q.head then waiting (unlock q) else take_head q
await_head (none ∷ rounds) q = if is_null q.head then empty (unlock q) else take_head q
await_head (some woken ∷ rounds) q =
    let rest = await_head rounds (lock woken) in if is_null q.head then rest else take_head q

-- `pop`, by whether `flags & QWAIT`.
unfoldable pub pop : Bool → List (Option Queue) → Queue → Popped
unfolding await_head take_head
pop true rounds q = await_head rounds (lock q)
pop false rounds q = if is_null q.head then empty (unlock q) else take_head (lock q)
