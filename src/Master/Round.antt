-- ===== src/Master/Round.antt =====
-- A round of the main loop of pcaio/master.c with one module installed.
use Prim.Native.Nat.{bit_or}
use pcaio.Prelude.{
  ℕ, zero, suc, ◌≡◌, refl, ◌∙◌, ap, Bool, true, false, arith, if◌then◌else◌, Ptr, update, ltb,
}
use pcaio.Master.{
  State, Callbacks, TickStatus, pms_again, pms_panic, mod_panic, tick_one, tick_from, tick_all,
  timeout_short, timeout_long,
}

-- The state in which a round ticks the modules, and the timeout that it gives them.
abbrev pub rested : {M : Type 0} → Callbacks M → Bool → State M → State M
rested cb any s = if any then s else cb.sleep timeout_long s

abbrev pub timeout_of : Bool → ℕ
timeout_of any = if any then timeout_short else timeout_long

tick_from-one :
    {M : Type 0} (cb : Callbacks M) (timeout fuel : ℕ) (s : State M)
    → s.modulescount ≡ 1
    → (tick_one cb timeout (s.modules 0) false s).1.modulescount ≡ 1
    → tick_from cb timeout (suc fuel) 0 false s ≡ tick_one cb timeout (s.modules 0) false s
unfolding tick_from
tick_from-one cb timeout zero s one kept =
    let more : ltb 0 s.modulescount ≡ true = ground arith in rw more refl
tick_from-one cb timeout (suc fuel) s one kept =
    let more : ltb 0 s.modulescount ≡ true = ground arith in
    let end : ltb 1 (tick_one cb timeout (s.modules 0) false s).1.modulescount ≡ false =
      ground arith in
    rw (more, end) refl

tick_all-one :
    {M : Type 0} (cb : Callbacks M) (any : Bool) (s : State M)
    → (rested cb any s).modulescount ≡ 1
    → (tick_one cb
        (timeout_of any)
        ((rested cb any s).modules 0)
        false
        (rested cb any s)).1.modulescount
      ≡ 1
    → tick_all cb any s
      ≡ tick_one cb (timeout_of any) ((rested cb any s).modules 0) false (rested cb any s)
unfolding tick_all
tick_all-one cb true s one kept = tick_from-one cb timeout_short 7 s one kept
tick_all-one cb false s one kept =
    tick_from-one cb timeout_long 7 (cb.sleep timeout_long s) one kept

-- A module is the only one, has a tick, and has not panicked.
pub record IsOnly {M : Type 0} (cb : Callbacks M) (m : Ptr) (s : State M) : Type 0 where
  pub one : s.modulescount ≡ 1
  pub first : s.modules 0 ≡ m
  pub ticks : cb.has_tick m ≡ true
  pub well : s.module_flags m ≡ 0

-- The state with the module marked as panicked.
abbrev pub panicked : {M : Type 0} → Ptr → State M → State M
panicked m s = record s { module_flags = update s.module_flags m mod_panic }

-- What a panic does to the flags of a module.
abbrev marked : {M : Type 0} → Ptr → State M → State M
marked m s = record s {
  module_flags = update s.module_flags m (bit_or (s.module_flags m) mod_panic);
}

tick_one-again :
    {M : Type 0} (cb : Callbacks M) (timeout : ℕ) (m : Ptr) (any : Bool) (s s1 : State M)
    → IsOnly cb m s
    → cb.tick m timeout s ≡ (pms_again, s1)
    → tick_one cb timeout m any s ≡ (true, s1)
unfolding tick_one
tick_one-again cb timeout m any s s1 o ticked =
    let status : (cb.tick m timeout s).0 ≡ pms_again =
      ap (λ (r : TickStatus × State _). r.0) ticked in
    rw (o.well, o.ticks, status) (ap (λ (r : TickStatus × State _). (Bool.true, r.1)) ticked)

tick_one-panic :
    {M : Type 0} (cb : Callbacks M) (timeout : ℕ) (m : Ptr) (any : Bool) (s s1 : State M)
    → IsOnly cb m s
    → cb.tick m timeout s ≡ (pms_panic, s1)
    → s1.module_flags m ≡ 0
    → tick_one cb timeout m any s ≡ (any, panicked m s1)
unfolding tick_one
tick_one-panic cb timeout m any s s1 o ticked same =
    let status : (cb.tick m timeout s).0 ≡ pms_panic =
      ap (λ (r : TickStatus × State _). r.0) ticked in
    rw (o.well, o.ticks, status)
      (ap (λ (r : TickStatus × State _). (any, marked m r.1)) ticked ∙ rw same refl)

-- With one module installed, that installs none, a round is one tick of it.
pub tick_all-again :
    {M : Type 0} (cb : Callbacks M) (m : Ptr) (any : Bool) (s s1 : State M)
    → IsOnly cb m (rested cb any s)
    → cb.tick m (timeout_of any) (rested cb any s) ≡ (pms_again, s1)
    → s1.modulescount ≡ 1
    → tick_all cb any s ≡ (true, s1)
tick_all-again cb m any s s1 o ticked one =
    let s0 = rested cb any s in
    let t = timeout_of any in
    let once : tick_one cb t (s0.modules 0) false s0 ≡ (true, s1) =
      rw o.first (tick_one-again cb t m false s0 s1 o ticked) in
    tick_all-one cb any s o.one (ap (λ (r : Bool × State _). r.1.modulescount) once ∙ one) ∙ once

pub tick_all-panic :
    {M : Type 0} (cb : Callbacks M) (m : Ptr) (any : Bool) (s s1 : State M)
    → IsOnly cb m (rested cb any s)
    → cb.tick m (timeout_of any) (rested cb any s) ≡ (pms_panic, s1)
    → s1.modulescount ≡ 1
    → s1.module_flags m ≡ 0
    → tick_all cb any s ≡ (false, panicked m s1)
tick_all-panic cb m any s s1 o ticked one same =
    let s0 = rested cb any s in
    let t = timeout_of any in
    let once : tick_one cb t (s0.modules 0) false s0 ≡ (false, panicked m s1) =
      rw o.first (tick_one-panic cb t m false s0 s1 o ticked same) in
    tick_all-one cb any s o.one (ap (λ (r : Bool × State _). r.1.modulescount) once ∙ one) ∙ once
