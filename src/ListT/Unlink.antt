-- ===== src/ListT/Unlink.antt =====
-- The branches of `delete` in include/pcaio/listT.c: what they leave of the list.
use pcaio.Prelude.{
  ◌≡◌, refl, sym, ◌∙◌, ◌≢◌, false, some, List, [], ◌∷◌, ◌++◌, arith, Ptr, null, update, has,
  Distinct, Distinct-cut, Distinct-front, Distinct-back, Distinct-apart, last_or, last_or-append,
  has-last_or, has-append, append-nil,
}
use pcaio.ListT.{DList, unlink}
use pcaio.ListT.Refine.{IsList}
use pcaio.ListT.Segment.{
  first_or, Segment, Segment-frame, Segment-join, Segment-split, Segment-retarget, Segment-rebase,
  Segment-last_ne_null,
}

-- What the links of an element say of its neighbours.
pub record Between (q : DList) (v : Ptr) (ys zs : List Ptr) : Type 0 where
  pub front : Segment q.next q.prev null q.head ys v
  pub back : Segment q.next q.prev v (first_or null zs) zs null
  pub ne_null : v ≢ null
  pub before : q.prev v ≡ last_or null ys
  pub behind : q.next v ≡ first_or null zs

pub IsList-Between :
    {q : DList} (v : Ptr) (ys zs : List Ptr) → IsList q (ys ++ (v ∷ zs)) → Between q v ys zs
IsList-Between {q} v ys zs is = record {
  front = cut.0;
  back = (Segment-split f g v (f v) [] zs null cut.1.3).1;
  ne_null = cut.1.1;
  before = cut.1.2;
  behind = (Segment-split f g v (f v) [] zs null cut.1.3).0;
}
  where
    f : Ptr → Ptr
    f = q.next

    g : Ptr → Ptr
    g = q.prev

    cut : Segment f g null q.head ys v × Segment f g (last_or null ys) v (v ∷ zs) null
    cut = Segment-split f g null q.head ys (v ∷ zs) null is.chain

-- The four ways in which `delete` takes an element out, by what stands before and behind it.
module _ {q : DList} (v : Ptr) where
  unlink_only : IsList q (v ∷ []) → unlink v q ≡ some (record q { head = null; tail = null })
  unfolding unlink
  unlink_only is = ground arith

  unlink_last :
      (y : Ptr) (ys : List Ptr)
      → IsList q (y ∷ ys ++ (v ∷ []))
      → unlink v q
        ≡ some (record q {
          tail = last_or y ys;
          next = update q.next (last_or y ys) null;
          prev = update q.prev v null;
        })
  unfolding unlink
  unlink_last y ys is = ground (
    arith,
    IsList-Between v (y ∷ ys) [] is,
    is.tail_last,
    last_or-append y v ys,
    Segment-last_ne_null q.next q.prev null q.head y ys v (IsList-Between v (y ∷ ys) [] is).front,
  )

  unlink_first :
      (z : Ptr) (zs : List Ptr)
      → IsList q (v ∷ z ∷ zs)
      → unlink v q
        ≡ some (record q { head = z; prev = update q.prev z null; next = update q.next v null })
  unfolding unlink
  unlink_first z zs is = ground arith

  unlink_middle :
      (y : Ptr) (ys : List Ptr) (z : Ptr) (zs : List Ptr)
      → IsList q (y ∷ ys ++ (v ∷ z ∷ zs))
      → unlink v q
        ≡ some (record q {
          prev = update (update q.prev z (last_or y ys)) v null;
          next = update (update q.next (last_or y ys) z) v null;
        })
  unfolding unlink
  unlink_middle y ys z zs is = ground (
    arith,
    IsList-Between v (y ∷ ys) (z ∷ zs) is,
    Distinct-cut v (y ∷ ys) (z ∷ zs) is.distinct,
    Segment-last_ne_null q.next q.prev null q.head y ys v
        (IsList-Between v (y ∷ ys) (z ∷ zs) is).front,
  )

-- What `unlink` leaves: the same list without the element, whose links are cleared.
pub record Unlinked (q q1 : DList) (v : Ptr) (rest : List Ptr) : Type 0 where
  pub chain : Segment q1.next q1.prev null q1.head rest null
  pub tail_last : q1.tail ≡ last_or null rest
  pub kept : q1.count ≡ q.count
  pub loose : (a : Ptr) → has a rest ≡ false → (q1.next a ≡ null) × (q1.prev a ≡ null)

last_or-append_cons : (d x : Ptr) (xs ys : List Ptr) → last_or d (xs ++ (x ∷ ys)) ≡ last_or x ys
last_or-append_cons d x [] ys = refl
last_or-append_cons d x (y ∷ xs) ys = last_or-append_cons y x xs ys

pub unlink-Unlinked :
    {q : DList} (v : Ptr) (ys zs : List Ptr)
    → IsList q (ys ++ (v ∷ zs))
    → (q1 : DList) × (unlink v q ≡ some q1) × Unlinked q q1 v (ys ++ zs)
unlink-Unlinked {q} v [] [] is = (
  _,
  unlink_only v is,
  record { chain = refl; tail_last = refl; kept = refl; loose = λ a h. ground (arith, is.loose a) },
)
unlink-Unlinked {q} v (y ∷ ys) [] is = (
  _,
  unlink_last v y ys is,
  record {
    chain = rw append-nil (
        Segment-frame f1 q.prev f1 (update q.prev v null) null q.head (y ∷ ys) null
          (Segment-retarget q.next q.prev null q.head y ys v null near.front
            (Distinct-front (y ∷ ys) (v ∷ []) is.distinct))
          (λ a i. (refl, ground (arith, Distinct-cut v (y ∷ ys) [] is.distinct))));
    tail_last = rw append-nil refl;
    kept = refl;
    loose = λ a h. ground (
      arith,
      is.loose a,
      near,
      has-append a (y ∷ ys) (v ∷ []),
      has-append a (y ∷ ys) [],
      has-last_or y ys,
    );
  },
)
  where
    near : Between q v (y ∷ ys) []
    near = IsList-Between v (y ∷ ys) [] is

    f1 : Ptr → Ptr
    f1 = update q.next (last_or y ys) null
unlink-Unlinked {q} v [] (z ∷ zs) is = (
  _,
  unlink_first v z zs is,
  record {
    chain =
        Segment-frame q.next (update q.prev z null) (update q.next v null) (update q.prev z null)
          null z (z ∷ zs) null
          (Segment-rebase q.next q.prev v z z zs null null (IsList-Between v [] (z ∷ zs) is).back
            is.distinct.1.0)
          (λ a i. (ground (arith, is.distinct), refl));
    tail_last = is.tail_last;
    kept = refl;
    loose = λ a h. ground (arith, is.loose a);
  },
)
unlink-Unlinked {q} v (y ∷ ys) (z ∷ zs) is = (
  _,
  unlink_middle v y ys z zs is,
  record {
    chain =
        Segment-join f2 g2 null q.head z (y ∷ ys) (z ∷ zs) null
          (Segment-frame f1 q.prev f2 g2 null q.head (y ∷ ys) z
            (Segment-retarget q.next q.prev null q.head y ys v z near.front
              (Distinct-front (y ∷ ys) (v ∷ z ∷ zs) is.distinct))
            (λ a i. ground (arith, cut, Distinct-apart a (y ∷ ys) (v ∷ z ∷ zs) is.distinct i)))
          (Segment-frame q.next g1 f2 g2 l z (z ∷ zs) null
            (Segment-rebase q.next q.prev v z z zs null l near.back
              (Distinct-back (y ∷ ys) (v ∷ z ∷ zs) is.distinct).1.0)
            (λ a i.
              ground (
                arith,
                cut,
                Distinct-apart l (y ∷ ys) (v ∷ z ∷ zs) is.distinct (has-last_or y ys),
              )));
    tail_last =
        is.tail_last ∙ last_or-append_cons y v ys (z ∷ zs) ∙ sym (last_or-append_cons y z ys zs);
    kept = refl;
    loose = λ a h. ground (
      arith,
      is.loose a,
      near,
      has-append a (y ∷ ys) (v ∷ z ∷ zs),
      has-append a (y ∷ ys) (z ∷ zs),
      has-last_or y ys,
    );
  },
)
  where
    near : Between q v (y ∷ ys) (z ∷ zs)
    near = IsList-Between v (y ∷ ys) (z ∷ zs) is

    cut : (has v (y ∷ ys) ≡ false) × (has v (z ∷ zs) ≡ false) × Distinct (y ∷ ys ++ (z ∷ zs))
    cut = Distinct-cut v (y ∷ ys) (z ∷ zs) is.distinct

    l : Ptr
    l = last_or y ys

    f1 : Ptr → Ptr
    f1 = update q.next l z

    g1 : Ptr → Ptr
    g1 = update q.prev z l

    f2 : Ptr → Ptr
    f2 = update f1 v null

    g2 : Ptr → Ptr
    g2 = update g1 v null
