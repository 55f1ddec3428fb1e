-- ===== src/QueueT/Pop.antt =====
-- `pop` of include/pcaio/queueT.c: which element it takes, and how it waits for one.
use pcaio.Prelude.{
  ◌≡◌, ◌≢◌, Bool, true, false, Option, none, some, List, [], ◌∷◌, ◌++◌, arith, if◌then◌else◌,
  update, ◌∙◌, sym, subst, map, Ptr, null, is_null,
}
use pcaio.QueueT.{Queue, lock, unlock, pred_size, pop, got, empty, take_head, await_head}
use pcaio.QueueT.Chain.{Chain, Chain-tail}
use pcaio.QueueT.Fifo.{IsQueue}

-- The state that a successful `pop` leaves.
abbrev pub popped : Queue → Queue
popped q =
    let q1 =
      if is_null (q.next q.head)
      then record q { head = null; tail = null }
      else record q { head = q.next q.head; next = update q.next q.head null } in
    unlock (record q1 { count = pred_size q1.count })

-- The first element leaves, its link cleared; the others stay in order.
take_head-IsQueue :
    {q : Queue} {x : Ptr} {xs : List Ptr}
    → IsQueue q (x ∷ xs)
    → (take_head q ≡ got x (popped q)) × IsQueue (popped q) xs
unfolding take_head
take_head-IsQueue {q} {x} {xs = []} is = (
  ground arith,
  record {
    chain = ground arith;
    tail_last = ground arith;
    counted = ground arith;
    small = omega arith;
    distinct = tt;
    loose = λ a h. ground (arith, is.loose a);
  },
)
take_head-IsQueue {q} {x} {xs = y ∷ ys} is = (
  ground arith,
  rw more record {
    chain =
        subst (λ p. Chain (update q.next p null) (q.next p) (y ∷ ys)) (sym is.chain.0)
          (Chain-tail q.next q.head x (y ∷ ys) is.chain is.distinct.0);
    tail_last = is.tail_last;
    counted = omega (arith, is.counted);
    small = omega (arith, is.small);
    distinct = is.distinct.1;
    loose = λ a h. ground (arith, is.loose a);
  },
)
  where
    more : is_null (q.next q.head) ≡ false
    more = ground arith

-- The mutex says nothing of what the queue holds.
pub lock-IsQueue : {q : Queue} {xs : List Ptr} → IsQueue q xs → IsQueue (lock q) xs
lock-IsQueue is = record {
  chain = is.chain;
  tail_last = is.tail_last;
  counted = is.counted;
  small = is.small;
  distinct = is.distinct;
  loose = is.loose;
}

await_head-cons :
    (rounds : List (Option Queue)) (q : Queue) → q.head ≢ null → await_head rounds q ≡ take_head q
unfolding await_head
await_head-cons [] q n = ground arith
await_head-cons (none ∷ rounds) q n = ground arith
await_head-cons (some woken ∷ rounds) q n = ground arith

-- On a queue that holds something `pop` takes the oldest element, whether or not it may wait.
pub pop-cons :
    (wait : Bool) (rounds : List (Option Queue)) {q : Queue} {x : Ptr} {xs : List Ptr}
    → IsQueue q (x ∷ xs)
    → (pop wait rounds q ≡ got x (popped (lock q))) × IsQueue (popped (lock q)) xs
unfolding pop
pop-cons true rounds {q} is =
    let (takes, holds) = take_head-IsQueue (lock-IsQueue is) in
    (await_head-cons rounds (lock q) (ground arith) ∙ takes, holds)
pop-cons false rounds {q} is =
    let (takes, holds) = take_head-IsQueue (lock-IsQueue is) in
    let some_head : is_null q.head ≡ false = ground arith in (rw some_head takes, holds)

-- On an empty queue a `pop` that may not wait reports so.
pub pop-nil :
    (rounds : List (Option Queue)) {q : Queue}
    → IsQueue q []
    → pop false rounds q ≡ empty (unlock q)
unfolding pop
pop-nil rounds is = rw is.chain

-- Every one of these wake-ups finds the queue empty.
abbrev pub AllEmpty : List Queue → Type 0
AllEmpty [] = Unit {0}
AllEmpty (q ∷ qs) = IsQueue q [] × AllEmpty qs

-- On an empty queue a waiting `pop` goes back to sleep as long as it wakes to an empty queue, and takes the oldest
-- element of the first queue that holds one.
pub pop-wakes :
    (idle : List Queue) (rounds : List (Option Queue)) {q woken : Queue} {x : Ptr} {xs : List Ptr}
    → IsQueue q []
    → AllEmpty idle
    → IsQueue woken (x ∷ xs)
    → (pop true (map some idle ++ (some woken ∷ rounds)) q ≡ got x (popped (lock woken)))
      × IsQueue (popped (lock woken)) xs
unfolding pop await_head
pop-wakes [] rounds {q} {woken} is all holds = rw is.chain (pop-cons true rounds holds)
pop-wakes (r ∷ idle) rounds {q} is all holds = rw is.chain (pop-wakes idle rounds all.0 all.1 holds)

-- A wait that fails gives up, and leaves the queue unlocked.
pub pop_gives_up :
    (rounds : List (Option Queue)) {q : Queue}
    → IsQueue q []
    → pop true (none ∷ rounds) q ≡ empty (unlock q)
unfolding pop await_head
pop_gives_up rounds is = rw is.chain
