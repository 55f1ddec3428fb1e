-- ===== src/ListT.antt =====
-- The list template of include/pcaio/listT.h and include/pcaio/listT.c: a doubly linked list
-- through two fields of its elements. task.c instantiates it as `tasklist`, modio.c as
-- `pcaio_ioeventlist`.
pub mod Segment
pub mod Refine
pub mod Unlink
pub mod Delete
pub mod Run
mod Tests
use pcaio.Prelude.{
  ℕ, Bool, true, false, not, ◌&&◌, ◌||◌, Option, none, some, ◌==◌, if◌then◌else◌, Ptr, null,
  is_null, update, Status, done, failed,
}
use pcaio.QueueT.{add_size, pred_size}

-- `struct T##list`. `mutex` says whether the mutex is held; `next` and `prev` are the fields
-- `T##list_next` and `T##list_prev` of every element.
pub record DList : Type 0 where
  pub head : Ptr
  pub tail : Ptr
  pub count : ℕ
  pub mutex : Bool
  pub next : Ptr → Ptr
  pub prev : Ptr → Ptr

abbrev pub lock : DList → DList
lock q = record q { mutex = true }

abbrev pub unlock : DList → DList
unlock q = record q { mutex = false }

-- `init` makes the mutex and stores nothing else.
unfoldable pub init : DList → DList
init q = record q { mutex = false }

-- `deinit` destroys the mutex and stores nothing else.
unfoldable pub deinit : DList → DList
deinit q = record q { mutex = false }

unfoldable pub append : Ptr → DList → Status × DList
append v q =
    if not (is_null (q.prev v)) || not (is_null (q.next v))
    then (failed, q)
    else (let q1 = if is_null q.tail then record q { head = v; tail = v } else record q {
      prev = update q.prev v q.tail;
      next = update q.next q.tail v;
      tail = v;
    } in
        (done, unlock (record q1 { count = add_size q1.count 1 })))

-- The four branches of `delete` after its first test: the only element, the last, the first, and
-- one between two others. `none` is the jump to `failed`.
unfoldable pub unlink : Ptr → DList → Option DList
unlink v q =
    if is_null (q.prev v) && is_null (q.next v)
    then (if not (q.head == v) || not (q.tail == v)
        then none
        else some (record q { head = null; tail = null }))
    else (if is_null (q.next v)
        then (if not (q.tail == v)
            then none
            else some (record q {
              tail = q.prev v;
              next = update q.next (q.prev v) null;
              prev = update q.prev v null;
            }))
        else (if is_null (q.prev v)
            then (if not (q.head == v)
                then none
                else some (record q {
                  head = q.next v;
                  prev = update q.prev (q.next v) null;
                  next = update q.next v null;
                }))
            else (let prev1 = update q.prev (q.next v) (q.prev v) in
                let next1 = update q.next (prev1 v) (q.next v) in
                some (record q { prev = update prev1 v null; next = update next1 v null }))))

unfoldable pub delete : Ptr → DList → Status × DList
delete v q = if is_null v || q.count == 0 then (failed, q) else elim (unlink v (lock q)) [
  | none ↦ (failed, unlock q)
  | some q1 ↦ (done, unlock (record q1 { count = pred_size q1.count }))
]

-- `pop`; `out` is the pointer that the caller gives, and what is stored there is the option.
unfoldable pub pop : Ptr → DList → Status × Option Ptr × DList
pop out q =
    if is_null out || q.count == 0
    then (failed, none, q)
    else (let first = q.head in
        let second = q.next first in
        let q1 =
          if is_null second
          then record q { head = null; tail = null }
          else record q { prev = update q.prev second null; head = second } in
        (
          done,
          some first,
          unlock (record q1 { next = update q1.next first null; count = pred_size q1.count }),
        ))
