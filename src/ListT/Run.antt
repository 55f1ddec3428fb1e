-- ===== src/ListT/Run.antt =====
-- Sequences of calls on the list of include/pcaio/listT.c, and on the list of its elements.
use pcaio.Prelude.{
  ◌+◌, ◌^◌, ◌≤◌, ◌<◌, ◌≡◌, refl, ap, ◌≢◌, false, Option, none, some, List, [], ◌∷◌, ◌++◌, arith,
  if◌then◌else◌, Ptr, null, Status, done, failed, length, sizes, has, remove, Bool-cases, inl, inr,
}
use pcaio.ListT.{DList, append, delete, pop}
use pcaio.ListT.Refine.{IsList, append-outside, append-member}
use pcaio.ListT.Delete.{delete_refines, pop-first, pop_fails}

-- A call, and what its caller sees; `take` gives the address to which `pop` stores.
pub data Call : Type 0 where
  add : Ptr → Call
  drop : Ptr → Call
  take : (out : Ptr) → Call

pub data Reply : Type 0 where
  returned : Status → Reply
  took : Status → Option Ptr → Reply

-- The calls one after the other.
pub run : List Call → DList → List Reply
run [] q = []
run (add v ∷ calls) q = returned (append v q).0 ∷ run calls (append v q).1
run (drop v ∷ calls) q = returned (delete v q).0 ∷ run calls (delete v q).1
run (take out ∷ calls) q = took (pop out q).0 (pop out q).1 ∷ run calls (pop out q).2

-- The list of the elements after a call of `append`, and after one of `pop`.
abbrev added : Ptr → List Ptr → List Ptr
added v xs = if has v xs then xs else xs ++ (v ∷ [])

abbrev rest : List Ptr → List Ptr
rest [] = []
rest (x ∷ xs) = xs

-- The same calls on the list of the elements.
pub run_list : List Call → List Ptr → List Reply
run_list [] xs = []
run_list (add v ∷ calls) xs =
    returned (if has v xs then failed else done) ∷ run_list calls (added v xs)
run_list (drop v ∷ calls) xs =
    returned (if has v xs then done else failed) ∷ run_list calls (remove v xs)
run_list (take out ∷ calls) [] = took failed none ∷ run_list calls []
run_list (take out ∷ calls) (x ∷ xs) = took done (some x) ∷ run_list calls xs

-- The calls append no NULL, and never the only element of the list once more; `pop` is given a place
-- for its result.
abbrev pub Proper : List Call → List Ptr → Type 0
Proper [] xs = Unit {0}
Proper (add v ∷ calls) xs = (v ≢ null) × (xs ≢ v ∷ []) × Proper calls (added v xs)
Proper (drop v ∷ calls) xs = Proper calls (remove v xs)
Proper (take out ∷ calls) xs = (out ≢ null) × Proper calls (rest xs)

length-added : (v : Ptr) (xs : List Ptr) → length (added v xs) ≤ length xs + 1
length-added v xs = elim (Bool-cases (has v xs)) [
  | inl inside ↦ rw inside (omega arith)
  | inr outside ↦ rw outside (grind sizes)
]

length-remove : (v : Ptr) (xs : List Ptr) → length (remove v xs) ≤ length xs
length-remove v [] = omega arith
length-remove v (x ∷ xs) = ground (arith, length-remove v xs)

-- `append` on a list that does not consist of the element alone.
append-added :
    {q : DList} {xs : List Ptr} (v : Ptr)
    → IsList q xs
    → v ≢ null
    → xs ≢ v ∷ []
    → length xs + 1 < 2 ^ 64
    → ((append v q).0 ≡ (if has v xs then failed else done)) × IsList (append v q).1 (added v xs)
append-added {q} {xs = []} v is n other room = append-outside v is n refl room
append-added {q} {xs = x ∷ []} v is n other room =
    let out : has v (x ∷ []) ≡ false = ground arith in rw out (append-outside v is n out room)
append-added {q} {xs = x ∷ y ∷ xs} v is n other room = elim (Bool-cases (has v (x ∷ y ∷ xs))) [
  | inl inside ↦ rw (inside, append-member v is inside) (refl, is)
  | inr outside ↦ rw outside (append-outside v is n outside room)
]

-- As long as the counter has room, no sequence of calls of `append`, `delete` and `pop`, one at a
-- time, tells a well-formed list from the list of its elements, if no call appends NULL, or the only
-- element of the list once more, and `pop` is given a place for its result: an element that is in
-- the list is not appended again, one that is not in it is not deleted, and `pop` takes them in order.
pub list_refines :
    (calls : List Call) {q : DList} {xs : List Ptr}
    → IsList q xs
    → Proper calls xs
    → length xs + length calls < 2 ^ 64
    → run calls q ≡ run_list calls xs
unfolding run run_list
list_refines [] is p room = refl
list_refines (add v ∷ calls) {xs} is p room =
    let (same, holds) = append-added v is p.0 p.1 (omega arith) in
    let later = list_refines calls holds p.2 (omega (arith, length-added v xs)) in
    rw (same, later) refl
list_refines (drop v ∷ calls) {xs} is p room =
    let (same, holds) = delete_refines v is in
    let later = list_refines calls holds p (omega (arith, length-remove v xs)) in
    rw (same, later) refl
list_refines (take out ∷ calls) {xs = []} is p room =
    let later = list_refines calls is p.1 (omega arith) in
    rw (pop_fails out is (inr refl)) (ap (λ l. took failed none ∷ l) later)
list_refines (take out ∷ calls) {xs = x ∷ xs} is p room =
    let (takes, first, holds) = pop-first out p.0 is in
    let later = list_refines calls holds p.1 (omega arith) in
    rw (takes, first) (ap (λ l. took done (some x) ∷ l) later)
