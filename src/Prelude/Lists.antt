-- ===== src/Prelude/Lists.antt =====
-- Lists of pointers: length, membership, the last element, and the lists without repetition.
use Prim.Native.Nat.{ℕ, zero, suc, ◌+◌, ◌<◌}
use mathlib.Core.Path.{◌≡◌, refl, ap}
use mathlib.Core.Logic.{◌≢◌, inl, inr}
use mathlib.Core.Option.{Option, none, some}
use mathlib.Core.Bool.{Bool, true, false, not, ◌&&◌, ◌||◌, false≢true}
use mathlib.Core.List.{List, [], ◌∷◌, ◌++◌}
use native.Mathlib.Omega.{arith}
use pcaio.Prelude.Tests.{◌==◌, if◌then◌else◌, Bool-cases}

module _ {ℓ} {A : Type ℓ} where
  abbrev pub length : List A → ℕ
  length [] = 0
  length (x ∷ xs) = suc (length xs)

  pub length-append : (xs ys : List A) → length (xs ++ ys) ≡ length xs + length ys
  length-append [] ys = omega arith
  length-append (x ∷ xs) ys = omega (arith, length-append xs ys)

-- Sizes, for `grind`.
pub ruleset sizes = (arith, length-append)

abbrev pub has : ℕ → List ℕ → Bool
has a [] = false
has a (x ∷ xs) = a == x || has a xs

abbrev pub Distinct : List ℕ → Type 0
Distinct [] = Unit {0}
Distinct (x ∷ xs) = (has x xs ≡ false) × Distinct xs

-- The last element, and `d` if there is none.
abbrev pub last_or : ℕ → List ℕ → ℕ
last_or d [] = d
last_or d (x ∷ xs) = last_or x xs

pub has-last_or : (x : ℕ) (xs : List ℕ) → has (last_or x xs) (x ∷ xs) ≡ true
has-last_or x [] = ground arith
has-last_or x (y ∷ ys) = ground (arith, has-last_or y ys)

pub last_or-append : (d v : ℕ) (xs : List ℕ) → last_or d (xs ++ (v ∷ [])) ≡ v
last_or-append d v [] = refl
last_or-append d v (x ∷ xs) = last_or-append x v xs

pub has-append : (a : ℕ) (xs ys : List ℕ) → has a (xs ++ ys) ≡ (has a xs || has a ys)
has-append a [] ys = refl
has-append a (x ∷ xs) ys = ground (arith, has-append a xs ys)

pub Distinct-snoc :
    (v : ℕ) (xs : List ℕ) → Distinct xs → has v xs ≡ false → Distinct (xs ++ (v ∷ []))
Distinct-snoc v [] d h = (refl, tt)
Distinct-snoc v (x ∷ xs) d h = ground (arith, has-append x xs (v ∷ []), Distinct-snoc v xs)

-- What distinctness says of a list that is cut at one of its elements.
pub Distinct-cut :
    (v : ℕ) (ys zs : List ℕ)
    → Distinct (ys ++ (v ∷ zs))
    → (has v ys ≡ false) × (has v zs ≡ false) × Distinct (ys ++ zs)
Distinct-cut v [] zs d = (refl, d.0, d.1)
Distinct-cut v (y ∷ ys) zs d =
    ground (arith, Distinct-cut v ys zs d.1, has-append y ys (v ∷ zs), has-append y ys zs)

pub Distinct-front : (ys zs : List ℕ) → Distinct (ys ++ zs) → Distinct ys
Distinct-front [] zs d = tt
Distinct-front (y ∷ ys) zs d = ground (arith, Distinct-front ys zs d.1, has-append y ys zs)

pub Distinct-back : (ys zs : List ℕ) → Distinct (ys ++ zs) → Distinct zs
Distinct-back [] zs d = d
Distinct-back (y ∷ ys) zs d = Distinct-back ys zs d.1

pub Distinct-apart :
    (a : ℕ) (ys zs : List ℕ) → Distinct (ys ++ zs) → has a ys ≡ true → has a zs ≡ false
Distinct-apart a [] zs d h = cc
Distinct-apart a (y ∷ ys) zs d h = ground (arith, Distinct-apart a ys zs d.1, has-append y ys zs)

-- A member cuts its list in two.
pub has-cut :
    (v : ℕ) (xs : List ℕ) → has v xs ≡ true → (ys : List ℕ) × (zs : List ℕ) × (xs ≡ ys ++ (v ∷ zs))
has-cut v [] h = absurd (false≢true h)
has-cut v (x ∷ xs) h = elim (Bool-cases (v == x)) [
  | inl hit ↦ ([], xs, ground arith)
  | inr miss ↦ let (ys, zs, e) = has-cut v xs (ground arith) in (x ∷ ys, zs, ap (λ l. x ∷ l) e)
]

-- The list without an element.
abbrev pub remove : ℕ → List ℕ → List ℕ
remove v [] = []
remove v (x ∷ xs) = if v == x then xs else x ∷ remove v xs

pub remove-cut : (v : ℕ) (ys zs : List ℕ) → has v ys ≡ false → remove v (ys ++ (v ∷ zs)) ≡ ys ++ zs
remove-cut v [] zs h = ground arith
remove-cut v (y ∷ ys) zs h = ground (arith, remove-cut v ys zs)

pub remove-stranger : (v : ℕ) (xs : List ℕ) → has v xs ≡ false → remove v xs ≡ xs
remove-stranger v [] h = refl
remove-stranger v (x ∷ xs) h = ground (arith, remove-stranger v xs)

pub has-remove :
    (a v : ℕ) (xs : List ℕ) → Distinct xs → has a (remove v xs) ≡ (has a xs && not (a == v))
has-remove a v [] d = refl
has-remove a v (x ∷ xs) d = ground (arith, has-remove a v xs d.1)

pub Distinct-remove : (v : ℕ) (xs : List ℕ) → Distinct xs → Distinct (remove v xs)
Distinct-remove v [] d = tt
Distinct-remove v (x ∷ xs) d = ground (arith, has-remove x v xs d.1, Distinct-remove v xs d.1)

pub nil_of_has : (xs : List ℕ) → ((a : ℕ) → has a xs ≡ false) → xs ≡ []
nil_of_has [] empty = refl
nil_of_has (x ∷ xs) empty = ground (arith, empty x)

-- Arrays: reading and writing at an index. A write out of bounds changes nothing.
module _ {ℓ} {A : Type ℓ} where
  abbrev pub get_elem? : List A → ℕ → Option A
  get_elem? [] i = none
  get_elem? (x ∷ xs) zero = some x
  get_elem? (x ∷ xs) (suc i) = get_elem? xs i

  abbrev pub set : List A → ℕ → A → List A
  set [] i v = []
  set (x ∷ xs) zero v = v ∷ xs
  set (x ∷ xs) (suc i) v = x ∷ set xs i v

  pub length-set : (xs : List A) (i : ℕ) (v : A) → length (set xs i v) ≡ length xs
  length-set [] i v = refl
  length-set (x ∷ xs) zero v = refl
  length-set (x ∷ xs) (suc i) v = ap suc (length-set xs i v)

  pub get_elem?-set_self :
      (xs : List A) (i : ℕ) (v : A) → i < length xs → get_elem? (set xs i v) i ≡ some v
  get_elem?-set_self [] i v h = absurd (omega arith)
  get_elem?-set_self (x ∷ xs) zero v h = refl
  get_elem?-set_self (x ∷ xs) (suc i) v h = get_elem?-set_self xs i v (omega arith)

  pub get_elem?-set_ne :
      (xs : List A) (i j : ℕ) (v : A) → i ≢ j → get_elem? (set xs i v) j ≡ get_elem? xs j
  get_elem?-set_ne [] i j v h = refl
  get_elem?-set_ne (x ∷ xs) zero zero v h = absurd (h refl)
  get_elem?-set_ne (x ∷ xs) zero (suc j) v h = refl
  get_elem?-set_ne (x ∷ xs) (suc i) zero v h = refl
  get_elem?-set_ne (x ∷ xs) (suc i) (suc j) v h = get_elem?-set_ne xs i j v (λ e. h (ap suc e))

-- The elements that pass a test.
module _ {ℓ} {A : Type ℓ} where
  abbrev pub filter : (A → Bool) → List A → List A
  filter p [] = []
  filter p (x ∷ xs) = if p x then x ∷ filter p xs else filter p xs

-- None of the pointers is null, and none of `vs` is among `xs`.
abbrev pub AllNonNull : List ℕ → Type 0
AllNonNull [] = Unit {0}
AllNonNull (v ∷ vs) = (v ≢ 0) × AllNonNull vs

abbrev pub Apart : List ℕ → List ℕ → Type 0
Apart xs [] = Unit {0}
Apart xs (v ∷ vs) = (has v xs ≡ false) × Apart xs vs

pub Apart-snoc :
    (v : ℕ) (xs vs : List ℕ) → Apart xs vs → has v vs ≡ false → Apart (xs ++ (v ∷ [])) vs
Apart-snoc v xs [] a h = tt
Apart-snoc v xs (w ∷ vs) a h = ground (arith, has-append w xs (v ∷ []), Apart-snoc v xs vs)
