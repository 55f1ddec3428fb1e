-- ===== src/ListT/Refine.antt =====
-- The list of include/pcaio/listT.c against the list of its elements.
use pcaio.Prelude.{
  ◌+◌, ◌^◌, ◌<◌, ◌≡◌, refl, sym, subst, ◌≢◌, true, false, List, [], ◌∷◌, ◌++◌, arith, ◌==◌, Ptr,
  null, update, Status, done, failed, length, length-append, sizes, has, Distinct, Distinct-snoc,
  last_or, last_or-append, has-last_or, has-append, Bool-cases, inl, inr,
}
use pcaio.QueueT.{add_size}
use pcaio.ListT.{DList, append}
use pcaio.ListT.Segment.{
  Segment, Segment-frame, Segment-join, Segment-retarget, Segment-last_ne_null,
  Segment-prev_ne_null,
}

-- The list holds the elements `xs` in order, and no other element is linked.
pub record IsList (q : DList) (xs : List Ptr) : Type 0 where
  pub chain : Segment q.next q.prev null q.head xs null
  pub tail_last : q.tail ≡ last_or null xs
  pub counted : q.count ≡ length xs
  pub small : length xs < 2 ^ 64
  pub distinct : Distinct xs
  pub loose : (a : Ptr) → has a xs ≡ false → (q.next a ≡ null) × (q.prev a ≡ null)

-- Clearing the links of an element that is not in the list changes nothing.
pub clear-IsList :
    {q : DList} {zs : List Ptr} (t : Ptr)
    → IsList q zs
    → has t zs ≡ false
    → IsList (record q { next = update q.next t null; prev = update q.prev t null }) zs
clear-IsList {q} {zs} t l out = record {
  chain =
      Segment-frame q.next q.prev (update q.next t null) (update q.prev t null) null q.head zs null
        l.chain (λ a i. ground arith);
  tail_last = l.tail_last;
  counted = l.counted;
  small = l.small;
  distinct = l.distinct;
  loose = λ a h. ground (arith, l.loose a);
}

-- With room in the counter, `append` puts an element that is not NULL and not in the list at its
-- end.
pub append-outside :
    {q : DList} {xs : List Ptr} (v : Ptr)
    → IsList q xs
    → v ≢ null
    → has v xs ≡ false
    → length xs + 1 < 2 ^ 64
    → ((append v q).0 ≡ done) × IsList (append v q).1 (xs ++ (v ∷ []))
unfolding append
append-outside {q} {xs = []} v is n out room =
    rw ((is.loose v out).1, (is.loose v out).0, is.tail_last)
      (
        refl,
        record {
          chain = (refl, n, ground (arith, is.loose v), ground (arith, is.loose v));
          tail_last = refl;
          counted = omega (arith, is.counted);
          small = omega arith;
          distinct = (refl, tt);
          loose = λ a h. ground (arith, is.loose a);
        },
      )
append-outside {q} {xs = x ∷ xs} v is n out room =
    subst (λ (r : Status × DList). (r.0 ≡ done) × IsList r.1 (x ∷ xs ++ (v ∷ []))) (sym stored)
      (
        refl,
        record {
          chain =
              Segment-join f g null q.head v (x ∷ xs) (v ∷ []) null front
                (refl, n, ground arith, ground (arith, is.loose v out, has-last_or x xs));
          tail_last = sym (last_or-append x v xs);
          counted = omega (arith, length-append xs (v ∷ []), is.counted);
          small = grind sizes;
          distinct = Distinct-snoc v (x ∷ xs) is.distinct out;
          loose =
              λ a h. ground (arith, is.loose a, has-append a (x ∷ xs) (v ∷ []), has-last_or x xs);
        },
      )
  where
    l : Ptr
    l = last_or x xs

    f : Ptr → Ptr
    f = update q.next l v

    g : Ptr → Ptr
    g = update q.prev v l

    stored : append v q ≡ (
      done,
      record q { tail = v; count = add_size q.count 1; mutex = false; next = f; prev = g },
    )
    stored = ground (
      arith,
      is.loose v out,
      is.tail_last,
      Segment-last_ne_null q.next q.prev null q.head x xs null is.chain,
    )

    front : Segment f g null q.head (x ∷ xs) v
    front =
        Segment-frame f q.prev f g null q.head (x ∷ xs) v
          (Segment-retarget q.next q.prev null q.head x xs null v is.chain is.distinct)
          (λ a i. (refl, ground arith))

-- `append` refuses an element of a list of two or more, and changes nothing.
pub append-member :
    {q : DList} {x y : Ptr} {xs : List Ptr} (v : Ptr)
    → IsList q (x ∷ y ∷ xs)
    → has v (x ∷ y ∷ xs) ≡ true
    → append v q ≡ (failed, q)
unfolding append
append-member {q} {x} {y} {xs} v is h = elim (Bool-cases (v == x)) [
  | inl first ↦ ground arith
  | inr later ↦
      ground (
        arith,
        Segment-prev_ne_null q.next q.prev x (q.next x) v (y ∷ xs) null is.chain.3 is.chain.1,
      )
]

-- The only element of a list is not told from one outside: appended again, it becomes its own
-- successor and its own predecessor, and is counted twice.
pub append_again :
    {q : DList} {v : Ptr}
    → IsList q (v ∷ [])
    → ((append v q).0 ≡ done)
      × ((append v q).1.next v ≡ v)
      × ((append v q).1.prev v ≡ v)
      × ((append v q).1.count ≡ 2)
unfolding append
append_again is = ground arith
