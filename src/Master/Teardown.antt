-- ===== src/Master/Teardown.antt =====
-- The end of `master` (pcaio/master.c): the loop over the tasks that are left.
use pcaio.Prelude.{
  ℕ, zero, suc, ◌<◌, ◌≡◌, refl, sym, ◌∙◌, subst, ◌≢◌, inr, ap, ap₂, false, Option, none, List, [],
  ◌∷◌, arith, Ptr, null, Status, length, has, remove-stranger,
}
use pcaio.ListT
use pcaio.ListT.{DList}
use pcaio.ListT.Refine.{IsList}
use pcaio.ListT.Unlink.{IsList-Between}
use pcaio.ListT.Delete.{pop-first, pop_fails}
use pcaio.World.{World}
use pcaio.Task
use pcaio.Task.Life.{released, release, free_lem}
use pcaio.Master.{address, free_all}

IsList-first :
    {q : DList} {z : Ptr} {zs : List Ptr} → IsList q (z ∷ zs) → (z ≢ null) × (has z zs ≡ false)
IsList-first {q} {z} {zs} is = ((IsList-Between z [] zs is).ne_null, is.distinct.0)

-- One round.
free-round :
    (w : World) {z : Ptr} {zs : List Ptr} (fuel : ℕ)
    → IsList w.tasks (z ∷ zs)
    → let l = (ListT.pop address w.tasks).2 in
      free_all (suc fuel) w ≡ free_all fuel (Task.free z (record w { tasks = l }))
unfolding free_all
free-round w {z} fuel is = rw (free_all, (pop-first address (omega arith) is).1) refl

free-stack : (t : Ptr) (w : World) → (Task.free t w).stack ≡ w.stack
unfolding Task.free
free-stack t w = ground arith

-- What `task_free` leaves, if the task had left the list already.
free-stranger :
    (w : World) {z : Ptr} {zs : List Ptr}
    → IsList w.tasks (z ∷ zs)
    → let v = Task.free z (record w { tasks = (ListT.pop address w.tasks).2 }) in
      IsList v.tasks zs × (v.freed ≡ released z w) × (v.stack ≡ w.stack)
free-stranger w {z} {zs} is =
    let v = record w { tasks = (ListT.pop address w.tasks).2 } in
    let (n, out) = IsList-first is in
    let (l, f, _, _) = free_lem v z (pop-first address (omega arith) is).2 n in
    (subst (IsList (Task.free z v).tasks) (remove-stranger z zs out) l, f, free-stack z v)

free-end :
    (w : World) (fuel : ℕ)
    → IsList w.tasks []
    → IsList (free_all (suc fuel) w).tasks [] × ((free_all (suc fuel) w).freed ≡ w.freed)
unfolding free_all
free-end w fuel is =
    let nothing = pop_fails address is (inr refl) in
    let same : (ListT.pop address w.tasks).2 ≡ w.tasks =
      ap (λ (r : Status × Option Ptr × DList). r.2) nothing in
    let none_left : (ListT.pop address w.tasks).1 ≡ none =
      ap (λ (r : Status × Option Ptr × DList). r.1) nothing in
    rw (free_all, none_left, same) (is, refl)

-- The teardown empties the list and frees every task on it once, with its stack.
pub free_all-frees :
    (w : World) (zs : List Ptr) (fuel : ℕ)
    → IsList w.tasks zs
    → length zs < fuel
    → IsList (free_all fuel w).tasks [] × ((free_all fuel w).freed ≡ release w.stack zs w.freed)
unfolding release
free_all-frees w zs zero is enough = ground arith
free_all-frees w [] (suc fuel) is enough = free-end w fuel is
free_all-frees w (z ∷ zs) (suc fuel) is enough =
    let v = Task.free z (record w { tasks = (ListT.pop address w.tasks).2 }) in
    let (l, f, t) = free-stranger w is in
    let (l', f') = free_all-frees v zs fuel l (omega arith) in
    subst (λ (u : World). IsList u.tasks [] × (u.freed ≡ release w.stack (z ∷ zs) w.freed))
      (sym (free-round w fuel is))
      (l', f' ∙ ap₂ (λ (k : Ptr → Ptr) (c : List Ptr). release k zs c) t f)
