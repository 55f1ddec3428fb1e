-- ===== src/QueueT/Fifo.antt =====
-- The queue of include/pcaio/queueT.c against a list of its elements, oldest first.
use pcaio.Prelude.{
  ◌+◌, ◌^◌, ◌<◌, ◌≡◌, refl, ◌≢◌, ◌⊎◌, true, false, List, [], ◌∷◌, ◌++◌, arith, if◌then◌else◌,
  update, ◌∙◌, sym, subst, Ptr, null, Status, done, failed, length, length-append, sizes, has,
  Distinct, Distinct-snoc, last_or, last_or-append, Bool-cases, inl, inr, has-append, has-last_or,
}
use pcaio.QueueT.{Queue, add_size, link, signal, init, refuses, push}
use pcaio.QueueT.Chain.{Chain, Chain-snoc, Chain-next_null, Chain-last_ne_null}

-- The queue holds the elements `xs`, oldest first, and no other element is linked.
pub record IsQueue (q : Queue) (xs : List Ptr) : Type 0 where
  pub chain : Chain q.next q.head xs
  pub tail_last : q.tail ≡ last_or null xs
  pub counted : q.count ≡ length xs
  pub small : length xs < 2 ^ 64
  pub distinct : Distinct xs
  pub loose : (a : Ptr) → has a xs ≡ false → q.next a ≡ null

-- What `push` promises: an element that waits already is refused, any other goes to the end.
unfoldable pub enqueue : Ptr → List Ptr → Status × List Ptr
enqueue v xs = if has v xs then (failed, xs) else (done, xs ++ (v ∷ []))

-- A queue after `init` holds nothing, if no element was linked.
pub init-IsQueue : (next : Ptr → Ptr) → ((a : Ptr) → next a ≡ null) → IsQueue (init next) []
unfolding init
init-IsQueue next unlinked = record {
  chain = refl;
  tail_last = refl;
  counted = refl;
  small = omega arith;
  distinct = tt;
  loose = λ a _. unlinked a;
}

-- The guard tells exactly the elements that wait from the others.
pub refuses-has :
    {q : Queue} {xs : List Ptr} (v : Ptr) → IsQueue q xs → v ≢ null → refuses q v ≡ has v xs
unfolding refuses
refuses-has {q} {xs = []} v is n = ground (arith, is.loose v)
refuses-has {q} {xs = x ∷ xs} v is n = elim (Bool-cases (has v (x ∷ xs))) [
  | inl inside ↦ ground (arith, Chain-next_null q.next q.head v null (x ∷ xs) is.chain inside)
  | inr outside ↦ ground (arith, is.loose v outside, has-last_or x xs)
]

-- What `push` does to an empty queue, and to one that holds something.
push-empty :
    (v : Ptr) (q : Queue)
    → refuses q v ≡ false
    → q.tail ≡ null
    → push v q ≡ (
      done,
      record {
        head = v;
        tail = v;
        count = add_size q.count 1;
        condition = signal ∷ q.condition;
        mutex = false;
        next = update q.next v null;
      },
    )
unfolding push link
push-empty v q ok e = rw (ok, e)

push-behind :
    (v : Ptr) (q : Queue)
    → refuses q v ≡ false
    → q.tail ≢ null
    → push v q ≡ (
      done,
      record {
        head = q.head;
        tail = v;
        count = add_size q.count 1;
        condition = signal ∷ q.condition;
        mutex = false;
        next = update (update q.next q.tail v) v null;
      },
    )
unfolding push link
push-behind v q ok e = ground arith

-- An element that does not wait goes to the end.
pub push-outside :
    {q : Queue} {xs : List Ptr} (v : Ptr)
    → IsQueue q xs
    → v ≢ null
    → has v xs ≡ false
    → length xs + 1 < 2 ^ 64
    → ((push v q).0 ≡ done) × IsQueue (push v q).1 (xs ++ (v ∷ []))
push-outside {q} {xs = []} v is n out room =
    rw (push-empty v q (refuses-has v is n ∙ out) is.tail_last) (
      refl,
      record {
        chain = (refl, n, ground arith);
        tail_last = refl;
        counted = omega (arith, is.counted);
        small = omega arith;
        distinct = (refl, tt);
        loose = λ a h. ground (arith, is.loose a);
      },
    )
push-outside {q} {xs = x ∷ xs} v is n out room =
    rw
      (push-behind v q (refuses-has v is n ∙ out)
        (ground (arith, Chain-last_ne_null q.next q.head x xs is.chain)))
      (
        refl,
        record {
          chain =
              subst (λ t. Chain (update (update q.next t v) v null) q.head (x ∷ xs ++ (v ∷ [])))
                (sym is.tail_last) (Chain-snoc q.next q.head x v xs is.chain is.distinct n out);
          tail_last = sym (last_or-append x v xs);
          counted = omega (arith, length-append xs (v ∷ []), is.counted);
          small = grind sizes;
          distinct = Distinct-snoc v (x ∷ xs) is.distinct out;
          loose =
              λ a h. ground (arith, is.loose a, has-append a (x ∷ xs) (v ∷ []), has-last_or x xs);
        },
      )

pub push-refused : (v : Ptr) (q : Queue) → refuses q v ≡ true → push v q ≡ (failed, q)
unfolding push
push-refused v q h = rw h

-- On a well-formed queue with room in its counter, `push` of an element that is not NULL refuses it
-- if it waits already, and changes nothing then; any other it puts at the end.
pub push_refines :
    {q : Queue} {xs : List Ptr} (v : Ptr)
    → IsQueue q xs
    → v ≢ null
    → length xs + 1 < 2 ^ 64
    → let (s, q') = push v q in
      (s ≡ (enqueue v xs).0) × IsQueue q' (enqueue v xs).1 × ((has v xs ≡ false) ⊎ (q' ≡ q))
unfolding enqueue
push_refines {q} {xs} v is n room = elim (Bool-cases (has v xs)) [
  | inl inside ↦ rw (inside, push-refused v q (refuses-has v is n ∙ inside)) (refl, is, inr refl)
  | inr outside ↦
      let (accepted, is') = push-outside v is n outside room in rw outside (accepted, is', inl refl)
]
