-- ===== src/ListT/Segment.antt =====
-- Segments of a doubly linked list, as include/pcaio/listT.c builds them.
use pcaio.Prelude.{
  ◌≡◌, refl, ◌≢◌, true, false, List, [], ◌∷◌, ◌++◌, arith, ◌==◌, Ptr, null, update, has, Distinct,
  last_or, has-last_or, Bool-cases, inl, inr, false≢true,
}

abbrev pub first_or : Ptr → List Ptr → Ptr
first_or d [] = d
first_or d (x ∷ xs) = x

-- From `p` the field `f` leads through the elements `xs`, none of them null, to `e`; the field `g`
-- of each is the element before it, and `b` for the first.
abbrev pub Segment : (Ptr → Ptr) → (Ptr → Ptr) → Ptr → Ptr → List Ptr → Ptr → Type 0
Segment f g b p [] e = p ≡ e
Segment f g b p (x ∷ xs) e = (p ≡ x) × (x ≢ null) × (g x ≡ b) × Segment f g x (f x) xs e

module _ (f g : Ptr → Ptr) where
  -- A segment survives stores that spare its elements.
  pub Segment-frame :
      (f' g' : Ptr → Ptr) (b p : Ptr) (xs : List Ptr) (e : Ptr)
      → Segment f g b p xs e
      → ((a : Ptr) → has a xs ≡ true → (f' a ≡ f a) × (g' a ≡ g a))
      → Segment f' g' b p xs e
  Segment-frame f' g' b p [] e s same = s
  Segment-frame f' g' b p (x ∷ xs) e s same =
      let (sf, sg) = same x (ground arith) in
      (
        s.0,
        s.1,
        ground arith,
        rw sf (Segment-frame f' g' x (f x) xs e s.3 (λ a h. same a (ground arith))),
      )

  -- Two segments, one behind the other.
  pub Segment-join :
      (b p m : Ptr) (xs ys : List Ptr) (e : Ptr)
      → Segment f g b p xs m
      → Segment f g (last_or b xs) m ys e
      → Segment f g b p (xs ++ ys) e
  Segment-join b p m [] ys e s t = rw s t
  Segment-join b p m (x ∷ xs) ys e s t = (s.0, s.1, s.2, Segment-join x (f x) m xs ys e s.3 t)

  pub Segment-split :
      (b p : Ptr) (xs ys : List Ptr) (e : Ptr)
      → Segment f g b p (xs ++ ys) e
      → Segment f g b p xs (first_or e ys) × Segment f g (last_or b xs) (first_or e ys) ys e
  Segment-split b p [] [] e s = (s, refl)
  Segment-split b p [] (y ∷ ys) e s = (s.0, (refl, s.1, s.2, s.3))
  Segment-split b p (x ∷ xs) ys e s =
      let (front, back) = Segment-split x (f x) xs ys e s.3 in ((s.0, s.1, s.2, front), back)

  -- The last element may be made to point elsewhere.
  pub Segment-retarget :
      (b p x : Ptr) (xs : List Ptr) (e w : Ptr)
      → Segment f g b p (x ∷ xs) e
      → Distinct (x ∷ xs)
      → Segment (update f (last_or x xs) w) g b p (x ∷ xs) w
  Segment-retarget b p x [] e w s d = (s.0, s.1, s.2, ground arith)
  Segment-retarget b p x (y ∷ ys) e w s d =
      (s.0, s.1, s.2, rw same (Segment-retarget x (f x) y ys e w s.3 d.1))
    where
      same : update f (last_or y ys) w x ≡ f x
      same = ground (arith, has-last_or y ys)

  -- The first element may be given another one before it.
  pub Segment-rebase :
      (b p x : Ptr) (xs : List Ptr) (e w : Ptr)
      → Segment f g b p (x ∷ xs) e
      → has x xs ≡ false
      → Segment f (update g x w) w p (x ∷ xs) e
  Segment-rebase b p x xs e w s h = (
    s.0,
    s.1,
    ground arith,
    Segment-frame f (update g x w) x (f x) xs e s.3 (λ a i. (refl, ground arith)),
  )

  pub Segment-last_ne_null :
      (b p x : Ptr) (xs : List Ptr) (e : Ptr) → Segment f g b p (x ∷ xs) e → last_or x xs ≢ null
  Segment-last_ne_null b p x [] e s = s.1
  Segment-last_ne_null b p x (y ∷ ys) e s = Segment-last_ne_null x (f x) y ys e s.3

  pub Segment-not_null :
      (b p : Ptr) (xs : List Ptr) (e : Ptr) → Segment f g b p xs e → has null xs ≡ false
  Segment-not_null b p [] e s = refl
  Segment-not_null b p (x ∷ xs) e s = ground (arith, Segment-not_null x (f x) xs e s.3)

  -- An element of a segment behind another has a predecessor.
  pub Segment-prev_ne_null :
      (b p v : Ptr) (xs : List Ptr) (e : Ptr)
      → Segment f g b p xs e
      → b ≢ null
      → has v xs ≡ true
      → g v ≢ null
  Segment-prev_ne_null b p v [] e s n h = absurd (false≢true h)
  Segment-prev_ne_null b p v (x ∷ xs) e s n h = elim (Bool-cases (v == x)) [
    | inl hit ↦ ground arith
    | inr miss ↦ Segment-prev_ne_null x (f x) v xs e s.3 s.1 (ground arith)
  ]
