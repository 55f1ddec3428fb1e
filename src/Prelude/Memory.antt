-- ===== src/Prelude/Memory.antt =====
-- Pointers, and the fields of the structures behind them: a field is a map from pointers, and a
-- store through a pointer is an update of that map.
use Prim.Native.Nat.{ℕ}
use mathlib.Core.Path.{◌≡◌, refl}
use mathlib.Core.Logic.{◌⊎◌, inl, inr}
use mathlib.Core.Bool.{Bool}
use pcaio.Prelude.Tests.{◌==◌, if◌then◌else◌}

abbrev pub Ptr : Type 0
Ptr = ℕ

abbrev pub null : Ptr
null = 0

abbrev pub is_null : Ptr → Bool
is_null p = p == 0

-- A thread of the operating system.
abbrev pub Tid : Type 0
Tid = ℕ

-- `p->f = v`
abbrev pub update {ℓ} : {A : Type ℓ} → (Ptr → A) → Ptr → A → Ptr → A
update f p v a = if p == a then v else f a

-- What a C function that returns `int` reports: 0, or -1.
pub data Status : Type 0 where
  done failed : Status

pub Status-cases : (s : Status) → (s ≡ done) ⊎ (s ≡ failed)
Status-cases done = inl refl
Status-cases failed = inr refl
