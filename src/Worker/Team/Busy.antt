-- ===== src/Worker/Team/Busy.antt =====
-- Which of several workers have a task, and that one of those can always go on.
use pcaio.Prelude.{
  ◌∙◌, Bool, ◌+◌, ℕ, ◌≤◌, ◌≡◌, refl, sym, ap, subst, ◌≢◌, ◌⊎◌, inl, inr, true, none, some, List, [],
  ◌∷◌, ◌++◌, arith, Ptr, Tid,
}
use pcaio.QueueT
use pcaio.QueueT.{Queue, got}
use pcaio.QueueT.Pop.{popped, pop-cons}
use pcaio.World.{World}
use pcaio.Worker.Plan.{Act, came_back}
use pcaio.Worker.Needs.{total, next_act}
use pcaio.Worker.Team.Landing.{AllLand, AllLand-here, comes_out-Lands}
use pcaio.Worker.Team.{
  active, Phase, idle, runs, back, Slot, at, Team, Step, takes, comes, settles, held, owed, AllIdle,
  steps_left,
}
use pcaio.Worker.Team.Count.{tally, times, owed-at, held-at}
use pcaio.Worker.Team.Going.{Parks, pending, AllFit, AllFit-split, Going}
use pcaio.Worker.Team.Moves.{requeues-Going, leaves-Going}

pub AllIdle-held : (ss : List Slot) → AllIdle ss → held ss ≡ []
AllIdle-held [] h = refl
AllIdle-held (s ∷ ss) h = rw h.0 (AllIdle-held ss h.1)

pub AllIdle-AllFit : (flags : Ptr → ℕ) (ss : List Slot) → AllIdle ss → AllFit flags ss
AllIdle-AllFit flags [] h = tt
AllIdle-AllFit flags (s ∷ ss) h = (rw h.0 tt, AllIdle-AllFit flags ss h.1)

pub AllIdle-owed : (need : Ptr → ℕ) (ss : List Slot) → AllIdle ss → owed need ss ≡ 0
AllIdle-owed need [] h = refl
AllIdle-owed need (s ∷ ss) h = rw h.0 (omega (arith, AllIdle-owed need ss h.1))

AllIdle-active : (ss : List Slot) → AllIdle ss → active ss ≡ []
AllIdle-active [] h = refl
AllIdle-active (s ∷ ss) h = rw h.0 (AllIdle-active ss h.1)

pub AllIdle-pending : (f : Ptr → Bool) (ss : List Slot) → AllIdle ss → pending f [] ss ≡ 0
AllIdle-pending f ss h = ap (λ l. 0 + tally f l) (AllIdle-active ss h) ∙ omega arith

-- Nobody waits for others when none is waited for.
pub Parks-nobody : (w : World) (group n : ℕ) (ps : List Ptr) → n ≡ 0 → Parks w group n ps → ps ≡ []
Parks-nobody w group n [] e h = refl
Parks-nobody w group n (p ∷ []) e h = absurd (h.0 e)
Parks-nobody w group n (p ∷ q ∷ ps) e h = absurd h

-- A worker that is not idle.
pub data Busy : List Slot → Type 0 where
  running_one : (ls rs : List Slot) (i : Tid) (t : Ptr) → Busy (ls ++ (at i (runs t) ∷ rs))
  coming_back :
      (ls rs : List Slot) (i : Tid) (o : Act) (t : Ptr) → Busy (ls ++ (at i (back o t) ∷ rs))

Busy-behind : (s : Slot) {ss : List Slot} → Busy ss → Busy (s ∷ ss)
Busy-behind s (running_one ls rs i t) = running_one (s ∷ ls) rs i t
Busy-behind s (coming_back ls rs i o t) = coming_back (s ∷ ls) rs i o t

Slot-cases :
    (s : Slot) (ss : List Slot)
    → AllIdle ss ⊎ Busy ss
    → (p : Phase) → s.phase ≡ p
    → AllIdle (s ∷ ss) ⊎ Busy (s ∷ ss)
Slot-cases s ss (inr b) p e = inr (Busy-behind s b)
Slot-cases s ss (inl h) idle e = inl (e, h)
Slot-cases s ss (inl h) (runs t) e =
    inr (subst (λ q. Busy (at s.thread q ∷ ss)) (sym e) (running_one [] ss s.thread t))
Slot-cases s ss (inl h) (back o t) e =
    inr (subst (λ q. Busy (at s.thread q ∷ ss)) (sym e) (coming_back [] ss s.thread o t))

pub Busy-cases : (ss : List Slot) → AllIdle ss ⊎ Busy ss
Busy-cases [] = inl tt
Busy-cases (s ∷ ss) = Slot-cases s ss (Busy-cases ss) s.phase refl

-- There is a next step.
abbrev pub CanStep : (Ptr → ℕ) → Team → Type 0
CanStep code c = (c' : Team) × Step code c c'

module _ {group : Ptr} {hooked : Ptr → Bool} {owner stack : Ptr → Ptr} {freed ts : List Ptr}
    (code need : Ptr → ℕ) where
  Busy-steps :
      {w : World} {ss : List Slot} {xs ps zs es : List Ptr}
      → Going group hooked owner stack freed ts w ss xs ps zs es
      → AllLand w.task_key.value w.context_key.value ss
      → Busy ss
      → CanStep code (record { world = w; need = need; slots = ss })
  Busy-steps {w} g land (running_one ls rs i t) =
      let (before, here, behind) = AllFit-split w.flags ls rs i (runs t) g.fits in
      (
        _,
        comes ls rs i t (came_back (next_act code need t) t w) refl (
            comes_out-Lands i (next_act code need t) t w here.0
              (AllLand-here w.task_key.value w.context_key.value ls rs i (runs t) land)),
      )
  Busy-steps g land (coming_back ls rs i none t) =
      let (v, settled, _) = requeues-Going ls rs i 0 t g in
      (_, settles ls rs i 0 none t v refl settled)
  Busy-steps g land (coming_back ls rs i (some r) t) =
      let (v, settled, _) = leaves-Going ls rs i 0 r t g in
      (_, settles ls rs i 0 (some r) t v refl settled)

  idle-steps :
      {w : World} {ss : List Slot} {x : Ptr} {xs ps zs es : List Ptr}
      → Going group hooked owner stack freed ts w ss (x ∷ xs) ps zs es
      → ss ≢ []
      → AllIdle ss
      → CanStep code (record { world = w; need = need; slots = ss })
  idle-steps {ss = []} g n h = absurd (n refl)
  idle-steps {w} {ss = s ∷ ss} {x} g n h = (
    _,
    takes [] ss s.thread x (popped (QueueT.lock w.taskq)) (ap (λ p. at s.thread p ∷ ss) h.0)
        (pop-cons true [] g.queue).0,
  )

  -- As long as steps are left, one of the workers can take one.
  pub goes_further :
      {w : World} {ss : List Slot} {xs ps zs es : List Ptr}
      → Going group hooked owner stack freed ts w ss xs ps zs es
      → AllLand w.task_key.value w.context_key.value ss
      → ss ≢ []
      → 1 ≤ steps_left need ss xs ps
      → CanStep code (record { world = w; need = need; slots = ss })
  unfolding total
  goes_further {ss} {xs = x ∷ xs} g land n more = elim (Busy-cases ss) [
    | inl h ↦ idle-steps g n h
    | inr b ↦ Busy-steps g land b
  ]
  goes_further {w} {ss} {xs = []} {ps} g land n more = elim (Busy-cases ss) [
    | inl h ↦
        let nobody = Parks-nobody w group _ ps (AllIdle-pending w.terminated ss h) g.parks in
        let none_left : total need ps ≡ 0 = ap (total need) nobody in
        absurd (omega (arith, AllIdle-owed need ss h))
    | inr b ↦ Busy-steps g land b
  ]

pub Busy-owed : (need : Ptr → ℕ) {ss : List Slot} → Busy ss → 1 ≤ owed need ss
Busy-owed need (running_one ls rs i t) = omega (arith, owed-at need ls rs i (runs t))
Busy-owed need (coming_back ls rs i none t) = omega (arith, owed-at need ls rs i (back none t))
Busy-owed need (coming_back ls rs i (some r) t) =
    omega (arith, owed-at need ls rs i (back (some r) t))

pub Busy-holds : {ss : List Slot} → Busy ss → ((a : Ptr) → times a (held ss) ≡ 0) → ⊥
Busy-holds (running_one ls rs i t) none_of =
    let one = held-at t ls rs i (runs t) in let wrong = none_of t in ground arith
Busy-holds (coming_back ls rs i o t) none_of =
    let one = held-at t ls rs i (back o t) in let wrong = none_of t in ground arith
