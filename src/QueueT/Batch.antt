-- ===== src/QueueT/Batch.antt =====
-- `pushall` of include/pcaio/queueT.c, on an empty queue and on one that holds something.
use pcaio.Prelude.{
  AllNonNull, Apart, Apart-snoc, ℕ, suc, ◌+◌, ◌^◌, ◌<◌, ◌≡◌, refl, sym, ap, subst, fun_ext, ◌∙◌,
  ◌≢◌, Bool, true, false, List, [], ◌∷◌, ◌++◌, arith, if◌then◌else◌, Ptr, null, is_null, update,
  Status, done, length, length-append, has, Distinct, Distinct-snoc, last_or, last_or-append,
  has-append, has-last_or, append_assoc, append-nil,
}
use pcaio.QueueT.{
  Queue, add_size, broadcast, lock, unlock, refuses_any, chain_rest, chain_all, pushall,
}
use pcaio.QueueT.Chain.{Chain, Chain-snoc, Chain-last_ne_null, Chain-last_null}
use pcaio.QueueT.Fifo.{IsQueue, refuses-has}

-- The links while the second loop runs: the chain is not closed yet, since the last element may
-- still point anywhere. Closing it gives the chain.
abbrev pub close : Queue → Queue
close q = record q { next = update q.next q.tail null }

update-update : (f : Ptr → Ptr) (p a b : Ptr) → update (update f p a) p b ≡ update f p b
update-update f p a b = fun_ext λ r. ground arith

-- One round of the second loop.
one_more_link :
    (q : Queue) (v x : Ptr) (xs : List Ptr)
    → q.tail ≡ last_or x xs
    → Chain (update q.next q.tail null) q.head (x ∷ xs)
    → Distinct (x ∷ xs)
    → v ≢ null
    → has v (x ∷ xs) ≡ false
    → Chain (update (update q.next q.tail v) v null) q.head (x ∷ xs ++ (v ∷ []))
one_more_link q v x xs t c d n h =
    subst (λ (f : Ptr → Ptr). Chain (update f v null) q.head (x ∷ xs ++ (v ∷ [])))
      (ap (λ (l : Ptr). update (update q.next q.tail null) l v) (sym t)
        ∙ update-update q.next q.tail null v)
      (Chain-snoc (update q.next q.tail null) q.head x v xs c d n h)

-- The second loop appends its elements to a chain, if they are new and distinct.
chain_rest-Chain :
    (vs : List Ptr) (q : Queue) (x : Ptr) (xs : List Ptr)
    → q.tail ≡ last_or x xs
    → Chain (close q).next q.head (x ∷ xs)
    → Distinct (x ∷ xs)
    → Distinct vs
    → AllNonNull vs
    → Apart (x ∷ xs) vs
    → ((chain_rest vs q).tail ≡ last_or x (xs ++ vs))
      × Chain (close (chain_rest vs q)).next (chain_rest vs q).head (x ∷ xs ++ vs)
unfolding chain_rest
chain_rest-Chain [] q x xs t c d dv n a = rw append-nil (t, c)
chain_rest-Chain (v ∷ vs) q x xs t c d dv n a =
    subst
      (λ ys.
        ((chain_rest vs q1).tail ≡ last_or x ys)
        × Chain (close (chain_rest vs q1)).next (chain_rest vs q1).head (x ∷ ys))
      (append_assoc xs (v ∷ []) vs)
      (chain_rest-Chain vs q1 x (xs ++ (v ∷ [])) (sym (last_or-append x v xs))
        (one_more_link q v x xs t c d n.0 a.0) (Distinct-snoc v (x ∷ xs) d a.0) dv.1 n.1
        (Apart-snoc v (x ∷ xs) vs a.1 dv.0))
  where
    q1 : Queue
    q1 = record q { next = update q.next q.tail v; tail = v }

-- It stores through no other pointer, and keeps the counter, the mutex and the head.
chain_rest-outside :
    (vs : List Ptr) (q : Queue) (a : Ptr)
    → a ≢ q.tail
    → has a vs ≡ false
    → (chain_rest vs q).next a ≡ q.next a
unfolding chain_rest
chain_rest-outside [] q a t h = refl
chain_rest-outside (v ∷ vs) q a t h =
    ground (arith, chain_rest-outside vs (record q { next = update q.next q.tail v; tail = v }) a)

chain_rest-count : (vs : List Ptr) (q : Queue) → (chain_rest vs q).count ≡ q.count
unfolding chain_rest
chain_rest-count [] q = refl
chain_rest-count (v ∷ vs) q =
    chain_rest-count vs (record q { next = update q.next q.tail v; tail = v })

-- The guard passes exactly if none of the elements waits.
refuses_any-Apart :
    {q : Queue} {xs : List Ptr} (vs : List Ptr)
    → IsQueue q xs
    → AllNonNull vs
    → Apart xs vs
    → refuses_any q vs ≡ false
unfolding refuses_any
refuses_any-Apart [] is n a = refl
refuses_any-Apart (v ∷ vs) is n a = rw (refuses-has v is n.0, a.0) (refuses_any-Apart vs is n.1 a.1)

-- What is left to do once all elements are chained.
abbrev finish : ℕ → Queue → Queue
finish n q = unlock (record q {
  count = add_size q.count n;
  next = update q.next q.tail null;
  condition = broadcast ∷ q.condition;
})

pushall-empty :
    (v : Ptr) (vs : List Ptr) (q : Queue)
    → refuses_any q (v ∷ vs) ≡ false
    → q.tail ≡ null
    → pushall (v ∷ vs) q ≡ (
      done,
      finish (length (v ∷ vs)) (chain_rest vs (record q { head = v; tail = v; mutex = true })),
    )
unfolding pushall chain_all
pushall-empty v vs q passes e = rw passes (
    ap
      (λ (b : Bool). (
        done,
        finish (length (v ∷ vs))
            (chain_rest vs (if b then record q { head = v; tail = v; mutex = true } else lock q)),
      ))
      (let at_end : is_null q.tail ≡ true = ground arith in at_end))

pushall-behind :
    (v : Ptr) (vs : List Ptr) (q : Queue)
    → refuses_any q (v ∷ vs) ≡ false
    → q.tail ≢ null
    → pushall (v ∷ vs) q ≡ (done, finish (length (v ∷ vs)) (chain_rest vs (lock q)))
unfolding pushall chain_all
pushall-behind v vs q passes ne = rw passes (
    ap
      (λ (b : Bool). (
        done,
        finish (length (v ∷ vs))
            (chain_rest vs (if b then record q { head = v; tail = v; mutex = true } else lock q)),
      ))
      (let at_end : is_null q.tail ≡ false = ground arith in at_end))

Apart-nil : (vs : List Ptr) → Apart [] vs
Apart-nil [] = tt
Apart-nil (v ∷ vs) = (refl, Apart-nil vs)

Apart-one : (v : Ptr) (vs : List Ptr) → has v vs ≡ false → Apart (v ∷ []) vs
Apart-one v [] h = tt
Apart-one v (w ∷ vs) h = ground (arith, Apart-one v vs)

-- `pushall` of distinct elements, none of them NULL, on an empty queue, with room in the counter,
-- leaves all of them waiting, in their order.
pub pushall-fresh :
    {q : Queue} (v : Ptr) (vs : List Ptr)
    → IsQueue q []
    → Distinct (v ∷ vs)
    → AllNonNull (v ∷ vs)
    → length (v ∷ vs) < 2 ^ 64
    → ((pushall (v ∷ vs) q).0 ≡ done) × IsQueue (pushall (v ∷ vs) q).1 (v ∷ vs)
pushall-fresh {q} v vs is d n room = rw (pushall-empty v vs q passes is.tail_last) (
  refl,
  record {
    chain = chained.1;
    tail_last = chained.0;
    counted = omega (arith, chain_rest-count vs q1, is.counted);
    small = room;
    distinct = d;
    loose = λ a out.
        ground (arith, chain_rest-outside vs q1 a, chained.0, has-last_or v vs, is.loose a);
  },
)
  where
    q1 : Queue
    q1 = record q { head = v; tail = v; mutex = true }

    passes : refuses_any q (v ∷ vs) ≡ false
    passes = refuses_any-Apart (v ∷ vs) is n (Apart-nil (v ∷ vs))

    chained :
        ((chain_rest vs q1).tail ≡ last_or v vs)
        × Chain (close (chain_rest vs q1)).next (chain_rest vs q1).head (v ∷ vs)
    chained =
        chain_rest-Chain vs q1 v [] refl (refl, n.0, ground arith) (refl, tt) d.1 n.1
          (Apart-one v vs d.0)

-- The elements `zs` are chained, `v` is not among them, and yet the counter has it.
abbrev pub Lost : Ptr → List Ptr → Status × Queue → Type 0
Lost v zs (s, q) =
    (s ≡ done) × Chain q.next q.head zs × (q.count ≡ suc (length zs)) × (has v zs ≡ false)

-- `pushall` of new and distinct elements, none of them NULL, on a queue that holds something, with
-- room in the counter, reports success, but chains only `v[1]` and the elements behind it: `v[0]`
-- is counted, and is not in the chain.
pub pushall_loses :
    {q : Queue} {x : Ptr} {xs : List Ptr} (v : Ptr) (vs : List Ptr)
    → IsQueue q (x ∷ xs)
    → Distinct (v ∷ vs)
    → AllNonNull (v ∷ vs)
    → Apart (x ∷ xs) (v ∷ vs)
    → length (x ∷ xs) + length (v ∷ vs) < 2 ^ 64
    → Lost v (x ∷ xs ++ vs) (pushall (v ∷ vs) q)
pushall_loses {q} {x} {xs} v vs is d n a room =
    subst (Lost v (x ∷ xs ++ vs))
      (sym (pushall-behind v vs q (refuses_any-Apart (v ∷ vs) is n a) last_ne))
      (
        refl,
        chained.1,
        omega (arith, chain_rest-count vs (lock q), is.counted, length-append xs vs),
        ground (arith, has-append v (x ∷ xs) vs),
      )
  where
    last_ne : q.tail ≢ null
    last_ne = ground (arith, Chain-last_ne_null q.next q.head x xs is.chain)

    closed : Chain (update q.next q.tail null) q.head (x ∷ xs)
    closed =
        subst (λ f. Chain f q.head (x ∷ xs))
          (fun_ext λ r. ground (arith, Chain-last_null q.next q.head x xs is.chain)) is.chain

    chained :
        ((chain_rest vs (lock q)).tail ≡ last_or x (xs ++ vs))
        × Chain (close (chain_rest vs (lock q))).next (chain_rest vs (lock q)).head (x ∷ xs ++ vs)
    chained = chain_rest-Chain vs (lock q) x xs is.tail_last closed is.distinct d.1 n.1 a.1
