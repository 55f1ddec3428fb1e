-- ===== src/QueueT/Run.antt =====
-- Sequences of calls of `push` and `pop` of include/pcaio/queueT.c, on the queue and on a list.
use pcaio.Prelude.{
  ◌+◌, ◌^◌, ◌≤◌, ◌<◌, ◌≡◌, refl, ap, ◌≢◌, false, List, [], ◌∷◌, arith, Ptr, null, Status, length,
  length-append,
}
use pcaio.QueueT.{Queue, push, pop, got, empty, waiting, unlock}
use pcaio.QueueT.Fifo.{IsQueue, enqueue, push_refines}
use pcaio.QueueT.Pop.{pop-cons, pop-nil}

-- A call, and what its caller sees.
pub data Call : Type 0 where
  put : Ptr → Call
  get : Call

pub data Reply : Type 0 where
  returned : Status → Reply
  took : Ptr → Reply
  nothing : Reply

-- The calls one after the other; `get` does not wait.
pub run : List Call → Queue → List Reply
run [] q = []
run (put v ∷ calls) q = let (s, q') = push v q in returned s ∷ run calls q'
run (get ∷ calls) q = elim (pop false [] q) [
  | got v q' ↦ took v ∷ run calls q'
  | empty q' ↦ nothing ∷ run calls q'
  | waiting q' ↦ []
]

-- The same calls on the list of the elements.
pub run_list : List Call → List Ptr → List Reply
run_list [] xs = []
run_list (put v ∷ calls) xs = let (s, xs') = enqueue v xs in returned s ∷ run_list calls xs'
run_list (get ∷ calls) [] = nothing ∷ run_list calls []
run_list (get ∷ calls) (x ∷ xs) = took x ∷ run_list calls xs

abbrev NoNull : List Call → Type 0
NoNull [] = Unit {0}
NoNull (put v ∷ calls) = (v ≢ null) × NoNull calls
NoNull (get ∷ calls) = NoNull calls

length-enqueue : (v : Ptr) (xs : List Ptr) → length (enqueue v xs).1 ≤ length xs + 1
unfolding enqueue
length-enqueue v xs = ground (arith, length-append xs (v ∷ []))

unlock-IsQueue : {q : Queue} {xs : List Ptr} → IsQueue q xs → IsQueue (unlock q) xs
unlock-IsQueue is = record {
  chain = is.chain;
  tail_last = is.tail_last;
  counted = is.counted;
  small = is.small;
  distinct = is.distinct;
  loose = is.loose;
}

-- As long as the counter has room, no sequence of calls of `push`, with elements that are not NULL,
-- and of `pop`, which does not wait, tells a well-formed queue from the list of its elements: what is pushed
-- comes out in order, once each, and an element that waits is refused.
pub run_refines :
    (calls : List Call) {q : Queue} {xs : List Ptr}
    → IsQueue q xs
    → NoNull calls
    → length xs + length calls < 2 ^ 64
    → run calls q ≡ run_list calls xs
unfolding run run_list
run_refines [] is n room = refl
run_refines (put v ∷ calls) {xs} is n room =
    let (same, holds, _) = push_refines v is n.0 (omega arith) in
    rw (same, run_refines calls holds n.1 (omega (arith, length-enqueue v xs)))
run_refines (get ∷ calls) {xs = []} is n room =
    rw (run, pop-nil [] is)
      (ap (λ r. nothing ∷ r) (run_refines calls (unlock-IsQueue is) n (omega arith)))
run_refines (get ∷ calls) {xs = x ∷ xs} is n room =
    let (takes, holds) = pop-cons false [] is in
    rw (run, takes) (ap (λ r. took x ∷ r) (run_refines calls holds n (omega arith)))
