-- ===== src/Master/Loop.antt =====
-- The main loop of `master`: what ends it.
use pcaio.Prelude.{
  ◌≡◌, refl, subst, ◌⊎◌, Bool-cases, inl, inr, Bool, true, false, List, [], ◌∷◌, ◌++◌, arith,
}
use pcaio.Master.{State, Callbacks, main_loop, ended, running, goes_on, tick_all, Looped}

Ended : {M : Type 0} → Looped M → Type 0
Ended (running s) = Unit {0}
Ended (ended s) = (s.cancel ≡ true) ⊎ (s.world.tasks.count ≡ 0)

stops-because :
    {M : Type 0} (s : State M) → goes_on s ≡ false → (s.cancel ≡ true) ⊎ (s.world.tasks.count ≡ 0)
stops-because s h = elim (Bool-cases s.cancel) [ inl c ↦ inl c | inr c ↦ inr (ground arith) ]

main_loop-Ended :
    {M : Type 0} (cb : Callbacks M) (rounds : List (State M → State M)) (any : Bool) (s : State M)
    → Ended (main_loop cb rounds any s)
unfolding main_loop Ended
main_loop-Ended cb [] any s = tt
main_loop-Ended cb (others ∷ rounds) any s =
    let (any1, s2) = tick_all cb any (others s) in
    let rest = main_loop-Ended cb rounds any1 s2 in
    elim (Bool-cases (goes_on (others s))) [
      | inl h ↦ rw h rest
      | inr h ↦ rw h (stops-because (others s) h)
    ]

-- The main loop ends only in a state where it was cancelled or no task is left.
pub ended-because :
    {M : Type 0} (cb : Callbacks M) (rounds : List (State M → State M)) (any : Bool)
    (s final : State M)
    → main_loop cb rounds any s ≡ ended final
    → (final.cancel ≡ true) ⊎ (final.world.tasks.count ≡ 0)
unfolding Ended
ended-because cb rounds any s final e = subst Ended e (main_loop-Ended cb rounds any s)

-- A signal ends the main loop: whatever happens before, once the other threads set `cancel` in some
-- round, the loop has ended.
pub cancel_ends :
    {M : Type 0} (cb : Callbacks M) (rounds later : List (State M → State M))
    (others : State M → State M) (any : Bool) (s : State M)
    → ((v : State M) → (others v).cancel ≡ true)
    → (final : State M) × (main_loop cb (rounds ++ (others ∷ later)) any s ≡ ended final)
unfolding main_loop
cancel_ends cb [] later others any s stops = (others s, rw (stops s) refl)
cancel_ends cb (before ∷ rounds) later others any s stops =
    let (any1, s2) = tick_all cb any (before s) in
    let (final, rest) = cancel_ends cb rounds later others any1 s2 stops in
    elim (Bool-cases (goes_on (before s))) [
      | inl h ↦ (final, rw h rest)
      | inr h ↦ (before s, rw h refl)
    ]
