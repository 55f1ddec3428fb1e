-- ===== src/RingT/Run.antt =====
-- Sequences of calls on the ring of include/pcaio/ringT.c, and on the list of what it holds.
use pcaio.Prelude.{
  ℕ, ◌-◌, ◌^◌, ◌≡◌, refl, ap, Option, none, some, List, [], ◌∷◌, Ptr, Status, done, failed, length,
}
use pcaio.RingT.{Ring, used, avail, push, pop}
use pcaio.RingT.Refine.{IsRing, enqueue, push-enqueue, used-length, avail-length}
use pcaio.RingT.Pop.{pop-oldest, pop_empty}

-- A call, with the two macros that count, and what its caller sees.
pub data Call : Type 0 where
  put : Ptr → Call
  get : Call
  count_used : Call
  count_free : Call

pub data Reply : Type 0 where
  returned : Status → Reply
  took : Status → Option Ptr → Reply
  counted : ℕ → Reply

-- The calls one after the other.
pub run : List Call → Ring → List Reply
run [] r = []
run (put e ∷ calls) r = returned (push e r).0 ∷ run calls (push e r).1
run (get ∷ calls) r = took (pop r).0 (pop r).1 ∷ run calls (pop r).2
run (count_used ∷ calls) r = counted (used r) ∷ run calls r
run (count_free ∷ calls) r = counted (avail r) ∷ run calls r

-- The same calls on a list with room for `size - 1` elements.
pub run_list : (size : ℕ) → List Call → List Ptr → List Reply
run_list size [] xs = []
run_list size (put e ∷ calls) xs =
    returned (enqueue size e xs).0 ∷ run_list size calls (enqueue size e xs).1
run_list size (get ∷ calls) [] = took failed none ∷ run_list size calls []
run_list size (get ∷ calls) (x ∷ xs) = took done (some x) ∷ run_list size calls xs
run_list size (count_used ∷ calls) xs = counted (length xs) ∷ run_list size calls xs
run_list size (count_free ∷ calls) xs = counted (size - 1 - length xs) ∷ run_list size calls xs

-- No sequence of calls of `push`, `pop`, RINGT_USED and RINGT_AVAIL, one at a time, tells a
-- well-formed ring of `2 ^ k` places, wherever its indices stand and however often they wrap, from a
-- list with room for one element less: what is pushed comes out in order, once each, and a push is
-- refused only when the room is used up.
pub ring_refines :
    (k : ℕ) (calls : List Call) {r : Ring} {xs : List Ptr}
    → IsRing k r xs
    → run calls r ≡ run_list (2 ^ k) calls xs
unfolding run run_list
ring_refines k [] is = refl
ring_refines k (put e ∷ calls) is =
    let (same, holds) = push-enqueue e is in rw (same, ring_refines k calls holds) refl
ring_refines k (get ∷ calls) {xs = []} is =
    rw (pop_empty is) (ap (λ l. took failed none ∷ l) (ring_refines k calls is))
ring_refines k (get ∷ calls) {xs = x ∷ xs} is =
    let (takes, first, holds) = pop-oldest is in
    rw (takes, first) (ap (λ l. took done (some x) ∷ l) (ring_refines k calls holds))
ring_refines k (count_used ∷ calls) {xs} is =
    rw (used-length is) (ap (λ l. counted (length xs) ∷ l) (ring_refines k calls is))
ring_refines k (count_free ∷ calls) {xs} is =
    rw (avail-length is) (ap (λ l. counted (2 ^ k - 1 - length xs) ∷ l) (ring_refines k calls is))
