-- ===== src/ListT/Delete.antt =====
-- `delete` and `pop` of include/pcaio/listT.c against the list of the elements.
use pcaio.Prelude.{
  ◌+◌, ◌≡◌, refl, sym, subst, ◌≢◌, true, false, Option, none, some, List, [], ◌∷◌, ◌++◌, arith,
  if◌then◌else◌, Ptr, null, is_null, update, Status, done, failed, length, length-append, has,
  Distinct-cut, has-append, has-cut, remove, remove-stranger, ◌⊎◌, remove-cut, Bool-cases, inl, inr,
}
use pcaio.QueueT.{pred_size}
use pcaio.ListT.{DList, lock, unlock, unlink, delete, pop}
use pcaio.ListT.Refine.{IsList}
use pcaio.ListT.Unlink.{IsList-Between, Unlinked, unlink-Unlinked}
use pcaio.ListT.Segment.{Segment, Segment-frame, Segment-rebase}

-- The counter and the mutex complete the list that `unlink` leaves.
Unlinked-IsList :
    {q q1 : DList} (v : Ptr) (ys zs : List Ptr)
    → IsList q (ys ++ (v ∷ zs))
    → Unlinked q q1 v (ys ++ zs)
    → IsList (unlock (record q1 { count = pred_size q1.count })) (ys ++ zs)
Unlinked-IsList {q} {q1} v ys zs is u = record {
  chain = u.chain;
  tail_last = u.tail_last;
  counted = omega (arith, sizes, u.kept, is.counted, is.small);
  small = omega (arith, sizes, is.small);
  distinct = (Distinct-cut v ys zs is.distinct).2;
  loose = u.loose;
}
  where
    sizes : length (ys ++ (v ∷ zs)) ≡ length (ys ++ zs) + 1
    sizes = omega (arith, length-append ys (v ∷ zs), length-append ys zs)

lock-IsList : {q : DList} {xs : List Ptr} → IsList q xs → IsList (lock q) xs
lock-IsList is = record {
  chain = is.chain;
  tail_last = is.tail_last;
  counted = is.counted;
  small = is.small;
  distinct = is.distinct;
  loose = is.loose;
}

unlock-IsList : {q : DList} {xs : List Ptr} → IsList q xs → IsList (unlock q) xs
unlock-IsList is = record {
  chain = is.chain;
  tail_last = is.tail_last;
  counted = is.counted;
  small = is.small;
  distinct = is.distinct;
  loose = is.loose;
}

delete-some :
    (v : Ptr) (q q1 : DList)
    → v ≢ null
    → q.count ≢ 0
    → unlink v (lock q) ≡ some q1
    → delete v q ≡ (done, unlock (record q1 { count = pred_size q1.count }))
unfolding delete
delete-some v q q1 n c e = ground arith

-- An element of the list is taken out, wherever it stands.
pub delete-member :
    {q : DList} (v : Ptr) (ys zs : List Ptr)
    → IsList q (ys ++ (v ∷ zs))
    → ((delete v q).0 ≡ done) × IsList (delete v q).1 (ys ++ zs)
delete-member {q} v ys zs is =
    let (q1, taken, u) = unlink-Unlinked v ys zs (lock-IsList is) in
    subst (λ (r : Status × DList). (r.0 ≡ done) × IsList r.1 (ys ++ zs))
      (sym (
        delete-some v q q1 (IsList-Between v ys zs is).ne_null
          (omega (arith, is.counted, length-append ys (v ∷ zs))) taken))
      (refl, Unlinked-IsList v ys zs (lock-IsList is) u)

delete-none :
    (v : Ptr) (q : DList)
    → unlink v (lock q) ≡ none
    → (delete v q ≡ (failed, q)) ⊎ (delete v q ≡ (failed, unlock q))
unfolding delete
delete-none v q e = ground arith

unlink-stranger :
    {q : DList} {xs : List Ptr} (v : Ptr)
    → IsList q xs
    → v ≢ null
    → has v xs ≡ false
    → unlink v q ≡ none
unfolding unlink
unlink-stranger {xs = []} v is n out = ground (arith, is.loose v out)
unlink-stranger {xs = x ∷ xs} v is n out = ground (arith, is.loose v out)

delete-null : (v : Ptr) (q : DList) → v ≡ null → delete v q ≡ (failed, q)
unfolding delete
delete-null v q e = ground arith

-- An element outside the list, or NULL, is refused, and the list stays.
pub delete-stranger :
    {q : DList} {xs : List Ptr} (v : Ptr)
    → IsList q xs
    → has v xs ≡ false
    → ((delete v q).0 ≡ failed) × IsList (delete v q).1 xs
delete-stranger {q} {xs} v is out = elim (Bool-cases (is_null v)) [
  | inl zero ↦ rw (delete-null v q (ground arith)) (refl, is)
  | inr n ↦ elim (delete-none v q (unlink-stranger v (lock-IsList is) (ground arith) out)) [
    | inl e ↦ rw e (refl, is)
    | inr e ↦ rw e (refl, unlock-IsList is)
  ]
]

-- What `delete` promises: an element of the list leaves it, any other is refused.
abbrev pub Deleted : Ptr → List Ptr → Status × DList → Type 0
Deleted v xs (s, q) = (s ≡ (if has v xs then done else failed)) × IsList q (remove v xs)

delete_refines-cut :
    {q : DList} (v : Ptr) (ys zs : List Ptr)
    → IsList q (ys ++ (v ∷ zs))
    → Deleted v (ys ++ (v ∷ zs)) (delete v q)
delete_refines-cut v ys zs is =
    let (s, holds) = delete-member v ys zs is in
    let inside : has v (ys ++ (v ∷ zs)) ≡ true = ground (arith, has-append v ys (v ∷ zs)) in
    (rw inside s, rw (remove-cut v ys zs (Distinct-cut v ys zs is.distinct).0) holds)

-- On a well-formed list `delete` takes out an element of the list, wherever it stands, and leaves the
-- others in order; any other element it refuses, and the list holds what it held.
pub delete_refines : {q : DList} {xs : List Ptr} (v : Ptr) → IsList q xs → Deleted v xs (delete v q)
delete_refines {q} {xs} v is = elim (Bool-cases (has v xs)) [
  | inl inside ↦
      let (ys, zs, e) = has-cut v xs inside in
      subst (λ l. IsList q l → Deleted v l (delete v q)) (sym e) (delete_refines-cut v ys zs) is
  | inr outside ↦ rw (outside, remove-stranger v xs outside) (delete-stranger v is outside)
]

-- On a list that is not empty, and with a place for its result, `pop` takes the first element.
pub pop-first :
    {q : DList} {x : Ptr} {xs : List Ptr} (out : Ptr)
    → out ≢ null
    → IsList q (x ∷ xs)
    → ((pop out q).0 ≡ done) × ((pop out q).1 ≡ some x) × IsList (pop out q).2 xs
unfolding pop
pop-first {q} {x} {xs = []} out n is =
    subst (λ (r : Status × Option Ptr × DList). (r.0 ≡ done) × (r.1 ≡ some x) × IsList r.2 [])
      (sym stored)
      (
        refl,
        refl,
        record {
          chain = refl;
          tail_last = refl;
          counted = omega (arith, is.counted);
          small = omega arith;
          distinct = tt;
          loose = λ a h. ground (arith, is.loose a);
        },
      )
  where
    stored : pop out q ≡ (
      done,
      some x,
      record q {
        head = null;
        tail = null;
        count = pred_size q.count;
        mutex = false;
        next = update q.next x null;
      },
    )
    stored = ground arith
pop-first {q} {x} {xs = y ∷ ys} out n is =
    subst (λ (r : Status × Option Ptr × DList). (r.0 ≡ done) × (r.1 ≡ some x) × IsList r.2 (y ∷ ys))
      (sym stored)
      (
        refl,
        refl,
        record {
          chain =
              Segment-frame q.next g (update q.next x null) g null y (y ∷ ys) null
                (Segment-rebase q.next q.prev x y y ys null null rest is.distinct.1.0)
                (λ a i. (ground (arith, is.distinct), refl));
          tail_last = is.tail_last;
          counted = omega (arith, is.counted, is.small);
          small = omega (arith, is.small);
          distinct = is.distinct.1;
          loose = λ a h. ground (arith, is.loose a);
        },
      )
  where
    g : Ptr → Ptr
    g = update q.prev y null

    rest : Segment q.next q.prev x y (y ∷ ys) null
    rest = (refl, is.chain.3.1, is.chain.3.2, is.chain.3.3)

    stored : pop out q ≡ (
      done,
      some x,
      record q {
        head = y;
        count = pred_size q.count;
        mutex = false;
        prev = g;
        next = update q.next x null;
      },
    )
    stored = ground arith

-- `pop` fails on an empty list, and without a place to store to.
pub pop_fails :
    {q : DList} {xs : List Ptr} (out : Ptr)
    → IsList q xs
    → (out ≡ null) ⊎ (xs ≡ [])
    → pop out q ≡ (failed, none, q)
unfolding pop
pop_fails out is h = ground arith
