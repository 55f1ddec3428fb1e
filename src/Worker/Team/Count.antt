-- ===== src/Worker/Team/Count.antt =====
-- How often a task stands in a list, and what the workers owe.
use pcaio.Prelude.{
  ℕ, ◌+◌, ◌≤◌, ◌≡◌, refl, ap, Bool, subst, ◌∙◌, inl, inr, Bool-cases, true, false, none, some, List,
  [], ◌∷◌, ◌++◌, arith, ◌==◌, if◌then◌else◌, Ptr, update, has, Distinct, remove, length,
  length-append,
}
use pcaio.Worker.Team.{
  Phase, idle, runs, back, Slot, at, in_phase, held, unended, active, owed_in, owed,
}

abbrev pub one_if : ℕ → ℕ → ℕ
one_if a x = if a == x then 1 else 0

abbrev pub times : (t : Ptr) → List Ptr → ℕ
times t [] = 0
times t (u ∷ us) = one_if t u + times t us

pub times-append : (t : Ptr) (us vs : List Ptr) → times t (us ++ vs) ≡ times t us + times t vs
times-append t [] vs = omega arith
times-append t (u ∷ us) vs = let rest = times-append t us vs in omega (arith, rest)

pub times_none : (a : ℕ) (xs : List ℕ) → has a xs ≡ false → times a xs ≡ 0
times_none a [] h = refl
times_none a (x ∷ xs) h = ground (arith, times_none a xs)

pub has_none : (a : ℕ) (xs : List ℕ) → times a xs ≡ 0 → has a xs ≡ false
has_none a [] h = refl
has_none a (x ∷ xs) h = ground (arith, has_none a xs)

pub times_some : (a : ℕ) (xs : List ℕ) → has a xs ≡ true → 1 ≤ times a xs
times_some a [] h = absurd (ground arith)
times_some a (x ∷ xs) h = ground (arith, times_some a xs)

pub has_some : (a : ℕ) (xs : List ℕ) → 1 ≤ times a xs → has a xs ≡ true
has_some a [] h = absurd (omega arith)
has_some a (x ∷ xs) h = ground (arith, has_some a xs)

pub Distinct-times : (a : ℕ) (xs : List ℕ) → Distinct xs → times a xs ≤ 1
Distinct-times a [] d = omega arith
Distinct-times a (x ∷ xs) d = ground (arith, times_none a xs, Distinct-times a xs d.1)

pub times-remove :
    (a v : ℕ) (xs : List ℕ) → 1 ≤ times v xs → times a (remove v xs) + one_if a v ≡ times a xs
times-remove a v [] h = absurd (omega arith)
times-remove a v (x ∷ xs) h = ground (arith, times-remove a v xs)

pub nil_of_times : (xs : List ℕ) → ((a : ℕ) → times a xs ≡ 0) → xs ≡ []
nil_of_times [] h = refl
nil_of_times (x ∷ xs) h = absurd (let wrong = h x in ground arith)

-- Both split where one worker stands.
pub held-at :
    (a : ℕ) (ls rs : List Slot) (i : ℕ) (p : Phase)
    → times a (held (ls ++ (at i p ∷ rs)))
      ≡ times a (in_phase p) + (times a (held ls) + times a (held rs))
held-at a [] rs i p = omega (arith, times-append a (in_phase p) (held rs))
held-at a (l ∷ ls) rs i p = omega (
  arith,
  held-at a ls rs i p,
  times-append a (in_phase l.phase) (held (ls ++ (at i p ∷ rs))),
  times-append a (in_phase l.phase) (held ls),
)

pub owed-at :
    (need : Ptr → ℕ) (ls rs : List Slot) (i : ℕ) (p : Phase)
    → owed need (ls ++ (at i p ∷ rs)) ≡ owed_in need p + (owed need ls + owed need rs)
owed-at need [] rs i p = omega arith
owed-at need (l ∷ ls) rs i p = omega (arith, owed-at need ls rs i p)

owed_in-update :
    (need : Ptr → ℕ) (t n : ℕ) (p : Phase)
    → times t (in_phase p) ≡ 0
    → owed_in (update need t n) p ≡ owed_in need p
owed_in-update need t n idle out = refl
owed_in-update need t n (runs u) out = ground arith
owed_in-update need t n (back none u) out = ground arith
owed_in-update need t n (back (some code) u) out = refl

-- What the other workers owe does not depend on the task of this one.
pub owed-update :
    (need : Ptr → ℕ) (t n : ℕ) (ss : List Slot)
    → times t (held ss) ≡ 0
    → owed (update need t n) ss ≡ owed need ss
owed-update need t n [] out = refl
owed-update need t n (s ∷ ss) out =
    let split = times-append t (in_phase s.phase) (held ss) in
    omega
      (arith, owed_in-update need t n s.phase (omega arith), owed-update need t n ss (omega arith))

-- The number of tasks that the workers have.
pub length-held-at :
    (ls rs : List Slot) (i : ℕ) (p : Phase)
    → length (held (ls ++ (at i p ∷ rs)))
      ≡ length (in_phase p) + (length (held ls) + length (held rs))
length-held-at [] rs i p = omega (arith, length-append (in_phase p) (held rs))
length-held-at (l ∷ ls) rs i p = omega (
  arith,
  length-held-at ls rs i p,
  length-append (in_phase l.phase) (held (ls ++ (at i p ∷ rs))),
  length-append (in_phase l.phase) (held ls),
)

-- What is written for a task that is not in the list does not matter to those that are.
pub update-outside :
    (f : Ptr → ℕ) (t v a : ℕ) (xs : List Ptr)
    → times t xs ≡ 0
    → 1 ≤ times a xs
    → update f t v a ≡ f a
update-outside f t v a xs out l =
    let differs : (a == t) ≡ true → 1 ≤ times t xs =
      λ e. (let same : a ≡ t = ground arith in subst (λ b. 1 ≤ times b xs) same l) in
    elim (Bool-cases (a == t)) [
      | inl same ↦ absurd (let wrong = differs same in omega arith)
      | inr other ↦ ground arith
    ]

pub times_of_has :
    (a : ℕ) (xs ys : List ℕ)
    → Distinct xs
    → Distinct ys
    → has a xs ≡ has a ys
    → times a xs ≡ times a ys
times_of_has a xs ys d d' same = elim (Bool-cases (has a ys)) [
  | inl inside ↦ omega (
    arith,
    Distinct-times a xs d,
    Distinct-times a ys d',
    times_some a xs (same ∙ inside),
    times_some a ys inside,
  )
  | inr outside ↦ omega (arith, times_none a xs (same ∙ outside), times_none a ys outside)
]

-- How many elements of a list pass a test.
abbrev pub tally : (Ptr → Bool) → List Ptr → ℕ
tally f [] = 0
tally f (u ∷ us) = (if f u then 1 else 0) + tally f us

pub tally-append :
    (f : Ptr → Bool) (us vs : List Ptr) → tally f (us ++ vs) ≡ tally f us + tally f vs
tally-append f [] vs = omega arith
tally-append f (u ∷ us) vs = omega (arith, tally-append f us vs)

pub tally_none : (f : Ptr → Bool) (us : List Ptr) → ((a : Ptr) → f a ≡ false) → tally f us ≡ 0
tally_none f [] h = refl
tally_none f (u ∷ us) h = ground (arith, h u, tally_none f us h)

-- If none passes, none that passes is in the list.
pub tally_zero :
    (f : Ptr → Bool) (a : Ptr) (us : List Ptr) → tally f us ≡ 0 → f a ≡ true → has a us ≡ false
tally_zero f a [] e h = refl
tally_zero f a (u ∷ us) e h = elim (Bool-cases (a == u)) [
  | inl same ↦ absurd (let passes : f u ≡ true = ap f (ground arith) ∙ h in ground arith)
  | inr other ↦ ground (arith, tally_zero f a us)
]

pub active-at :
    (f : Ptr → Bool) (ls rs : List Slot) (i : ℕ) (p : Phase)
    → tally f (active (ls ++ (at i p ∷ rs)))
      ≡ tally f (unended p) + (tally f (active ls) + tally f (active rs))
active-at f [] rs i p = omega (arith, tally-append f (unended p) (active rs))
active-at f (l ∷ ls) rs i p = omega (
  arith,
  active-at f ls rs i p,
  tally-append f (unended l.phase) (active (ls ++ (at i p ∷ rs))),
  tally-append f (unended l.phase) (active ls),
)
