-- ===== src/QueueT/Chain.antt =====
-- Chains of pointers through one field, as the queue of include/pcaio/queueT.c builds them.
use pcaio.Prelude.{
  ◌≡◌, ◌≢◌, true, false, List, [], ◌∷◌, ◌++◌, arith, ◌==◌, Ptr, null, update, has, Distinct,
  last_or, has-last_or, Bool-cases, inl, inr,
}

-- From `p` the field `f` leads through the elements `xs`, none of them null, to null.
abbrev pub Chain : (Ptr → Ptr) → Ptr → List Ptr → Type 0
Chain f p [] = p ≡ null
Chain f p (x ∷ xs) = (p ≡ x) × (x ≢ null) × Chain f (f x) xs

-- A store through a pointer outside the chain leaves the chain.
pub Chain-update :
    (f : Ptr → Ptr) (p v w : Ptr) (xs : List Ptr)
    → Chain f p xs
    → has v xs ≡ false
    → Chain (update f v w) p xs
Chain-update f p v w [] c h = c
Chain-update f p v w (x ∷ xs) c h =
    (c.0, c.1, rw (miss) (Chain-update f (f x) v w xs c.2 (ground arith)))
  where
    miss : update f v w x ≡ f x
    miss = ground arith

-- A new element behind the last one.
pub Chain-snoc :
    (f : Ptr → Ptr) (p x v : Ptr) (xs : List Ptr)
    → Chain f p (x ∷ xs)
    → Distinct (x ∷ xs)
    → v ≢ null
    → has v (x ∷ xs) ≡ false
    → Chain (update (update f (last_or x xs) v) v null) p (x ∷ xs ++ (v ∷ []))
Chain-snoc f p x v [] c d n h = (c.0, c.1, (ground arith, n, ground arith))
Chain-snoc f p x v (y ∷ ys) c d n h =
    (c.0, c.1, rw same (Chain-snoc f (f x) y v ys c.2 d.1 n (ground arith)))
  where
    same : update (update f (last_or y ys) v) v null x ≡ f x
    same = ground (arith, has-last_or y ys)

-- The chain behind its first element, once that is unlinked.
pub Chain-tail :
    (f : Ptr → Ptr) (p x : Ptr) (xs : List Ptr)
    → Chain f p (x ∷ xs)
    → has x xs ≡ false
    → Chain (update f x null) (f x) xs
Chain-tail f p x xs c h = Chain-update f (f x) x null xs c.2 h

-- Inside a chain only the last element has a null link.
pub Chain-next_null :
    (f : Ptr → Ptr) (p v d : Ptr) (xs : List Ptr)
    → Chain f p xs
    → has v xs ≡ true
    → f v ≡ null
    → v ≡ last_or d xs
Chain-next_null f p v d [] c h e = cc
Chain-next_null f p v d (x ∷ []) c h e = ground arith
Chain-next_null f p v d (x ∷ y ∷ ys) c h e = elim (Bool-cases (v == x)) [
  | inl hit ↦ ground arith
  | inr miss ↦ Chain-next_null f (f x) v x (y ∷ ys) c.2 (ground arith) e
]

-- The last element of a chain is not null.
pub Chain-last_ne_null :
    (f : Ptr → Ptr) (p x : Ptr) (xs : List Ptr) → Chain f p (x ∷ xs) → last_or x xs ≢ null
Chain-last_ne_null f p x [] c = c.1
Chain-last_ne_null f p x (y ∷ ys) c = Chain-last_ne_null f (f x) y ys c.2

-- The last element of a chain has a null link.
pub Chain-last_null :
    (f : Ptr → Ptr) (p x : Ptr) (xs : List Ptr) → Chain f p (x ∷ xs) → f (last_or x xs) ≡ null
Chain-last_null f p x [] c = c.2
Chain-last_null f p x (y ∷ ys) c = Chain-last_null f (f x) y ys c.2
