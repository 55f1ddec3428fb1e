-- ===== src/Master/Panic.antt =====
-- The flag `MOD_PANIC` of a module, in the main loop of pcaio/master.c.
use Prim.Native.Nat.{bit_and}
use pcaio.Prelude.{
  ℕ, zero, suc, ◌+◌, ◌<◌, ◌≡◌, refl, ◌∙◌, ap, ◌≢◌, Bool-cases, inl, inr, Bool, true, false, List,
  [], ◌∷◌, arith, ◌==◌, ltb, Ptr, if◌then◌else◌,
}
use pcaio.Master.{
  State, Callbacks, mod_panic, modules_max, tick_one, tick_from, tick_all, timeout_long, main_loop,
  goes_on, Looped, ended, TickStatus,
}
use pcaio.Master.Round.{panicked}

-- Every installed module has panicked.
abbrev pub AllPanicked : {M : Type 0} → State M → Type 0
AllPanicked s = (i : ℕ) → i < s.modulescount → bit_and (s.module_flags (s.modules i)) mod_panic ≢ 0

-- What others do between two rounds, of the other threads or in the main thread's sleep: no module
-- is made well again, and none is installed.
abbrev pub StaysPanicked : {M : Type 0} → (State M → State M) → Type 0
StaysPanicked {M} others = (s : State M) → AllPanicked s → AllPanicked (others s)

abbrev pub AllStay : {M : Type 0} → List (State M → State M) → Type 0
AllStay [] = Unit {0}
AllStay (others ∷ rounds) = StaysPanicked others × AllStay rounds

tick_one-panicked :
    {M : Type 0} (cb : Callbacks M) (timeout : ℕ) (m : Ptr) (any : Bool) (s : State M)
    → bit_and (s.module_flags m) mod_panic ≢ 0
    → tick_one cb timeout m any s ≡ (any, s)
unfolding tick_one
tick_one-panicked cb timeout m any s p =
    let flagged : (bit_and (s.module_flags m) mod_panic == 0) ≡ false = ground arith in
    rw flagged refl

tick_from-panicked :
    {M : Type 0} (cb : Callbacks M) (timeout fuel i : ℕ) (any : Bool) (s : State M)
    → AllPanicked s
    → tick_from cb timeout fuel i any s ≡ (any, s)
unfolding tick_from
tick_from-panicked cb timeout zero i any s p = refl
tick_from-panicked cb timeout (suc fuel) i any s p = elim (Bool-cases (ltb i s.modulescount)) [
  | inl more ↦
      (let skipped = tick_one-panicked cb timeout (s.modules i) any s (p i (ground arith)) in
        rw (more, skipped) (tick_from-panicked cb timeout fuel (i + 1) any s p))
  | inr end ↦ rw end refl
]

-- A round of the main loop when every module has panicked: nothing is ticked, and unless the round
-- before left work the main thread sleeps.
pub tick_all-panicked :
    {M : Type 0} (cb : Callbacks M) (any : Bool) (s : State M)
    → AllPanicked s
    → StaysPanicked (cb.sleep timeout_long)
    → tick_all cb any s ≡ (false, if any then s else cb.sleep timeout_long s)
unfolding tick_all
tick_all-panicked cb true s p keeps = tick_from-panicked cb _ modules_max 0 false s p
tick_all-panicked cb false s p keeps =
    tick_from-panicked cb _ modules_max 0 false (cb.sleep timeout_long s) (keeps s p)

-- Once every installed module has panicked, the main loop never calls a tick again: whatever ticks the
-- modules have, the loop does the same, in whatever rounds follow, as long as nothing clears the flag
-- of a module and none is installed.
pub panic_stays :
    {M : Type 0} (cb : Callbacks M) (tick : Ptr → ℕ → State M → TickStatus × State M)
    (rounds : List (State M → State M)) (any : Bool) (s : State M)
    → AllPanicked s
    → AllStay rounds
    → StaysPanicked (cb.sleep timeout_long)
    → main_loop (record cb { tick = tick }) rounds any s ≡ main_loop cb rounds any s
unfolding main_loop
panic_stays cb tick [] any s p keep keeps = refl
panic_stays cb tick (others ∷ rounds) any s p keep keeps =
    let s1 = others s in
    let p1 = keep.0 s p in
    let same = tick_all-panicked cb any s1 p1 keeps in
    let same' = tick_all-panicked (record cb { tick = tick }) any s1 p1 keeps in
    let rest =
      panic_stays cb tick rounds false (if any then s1 else cb.sleep timeout_long s1)
        (awake any s1 p1) keep.1 keeps in
    rw (same, same') (ap (λ (l : Looped _). if goes_on s1 then l else ended s1) rest)
  where
    awake :
        (b : Bool) (v : State _)
        → AllPanicked v
        → AllPanicked (if b then v else cb.sleep timeout_long v)
    awake true v q = q
    awake false v q = keeps v q

-- The only module, once it is marked.
pub panicked-AllPanicked :
    {M : Type 0} (m : Ptr) (s : State M)
    → s.modulescount ≡ 1
    → s.modules 0 ≡ m
    → AllPanicked (panicked m s)
panicked-AllPanicked m s one first i h =
    let only : s.modules i ≡ m = ap s.modules (omega arith) ∙ first in
    let flag : (panicked m s).module_flags (s.modules i) ≡ mod_panic = ground arith in
    rw flag (omega arith)
