-- ===== src/Master/Team.antt =====
-- The main loop of pcaio/master.c while several workers (pcaio/worker.c) run their tasks.
use pcaio.Prelude.{
  ℕ, ◌+◌, ◌≡◌, ◌≤◌, ◌<◌, refl, sym, subst, ap, ◌∙◌, ◌≢◌, ◌⊎◌, inl, inr, Bool, true, false, List, [],
  ◌∷◌, map, arith, ◌==◌, if◌then◌else◌, Ptr, length, Bool-cases,
}
use pcaio.World.{World}
use pcaio.Worker.Team.{Team, Steps, Slot, steps_left}
use pcaio.Worker.Team.Going.{Going}
use pcaio.Worker.Team.Landing.{Landed}
use pcaio.Worker.Team.Trace.{Steps-Going}
use pcaio.Worker.Team.Busy.{CanStep, goes_further}
use pcaio.Worker.Team.Finish.{IsDone, none_or_more, over-IsDone, empty-over, Steps-nonempty}
use pcaio.Master.{State, Callbacks, Looped, ended, running, goes_on, timeout_long, main_loop}
use pcaio.Master.Work.{tick_all-bare}

-- What the main thread finds when it looks at what all threads share.
abbrev pub sees : {M : Type 0} → World → State M → State M
sees w s = record s { world = w }

-- The workers take some steps before each time that the main thread looks, `n` in all; these are the
-- worlds that it sees, and the workers as it sees them last.
pub data Seen (code : Ptr → ℕ) : (n : ℕ) → Team → List World → Team → Type 0 where
  last : {n : ℕ} {c c' : Team} → Steps code n c c' → Seen code n c (c'.world ∷ []) c'
  look :
      {n m : ℕ} {c c' c'' : Team} {ws : List World}
      → Steps code n c c'
      → Seen code m c' ws c''
      → Seen code (n + m) c (c'.world ∷ ws) c''

-- A round of the main loop without modules.
pub main_loop-bare :
    {M : Type 0} (cb : Callbacks M) (others : State M → State M) (rounds : List (State M → State M))
    (any : Bool) (s : State M)
    → (others s).modulescount ≡ 0
    → ((v : State M) → cb.sleep timeout_long v ≡ v)
    → main_loop cb (others ∷ rounds) any s
      ≡ (if goes_on (others s) then main_loop cb rounds false (others s) else ended (others s))
unfolding main_loop
main_loop-bare cb others rounds any s bare sleeps =
    ap
      (λ (p : Bool × State _).
        if goes_on (others s) then main_loop cb rounds p.0 p.1 else ended (others s))
      (tick_all-bare cb any (others s) bare sleeps)

-- What the main loop comes to: it still runs, fewer steps were taken than there are, and a worker can go
-- on; or it has ended, and all tasks have.
abbrev pub LoopsWith :
    {M : Type 0}
    → (Ptr → ℕ)
    → (Ptr → Ptr)
    → (freed ts : List Ptr) → (n steps : ℕ) → Team
    → State M
    → Looped M
    → Type 0
LoopsWith {M} code stack freed ts n steps c s l =
    ((v : State M) × (l ≡ running v) × (n < steps) × CanStep code c)
    ⊎ ((w : World) × (slots : List Slot) × (l ≡ ended (record s { world = w }))
        × IsDone stack freed ts w slots)

nil_of_length : (zs : List Ptr) → length zs ≡ 0 → zs ≡ []
nil_of_length [] e = refl
nil_of_length (z ∷ zs) e = absurd (omega arith)

-- What the main thread finds when it looks.
looks :
    {M : Type 0} (code : Ptr → ℕ) {group : Ptr} {hooked : Ptr → Bool} {owner stack : Ptr → Ptr}
    {freed ts xs ps zs es : List Ptr} (c : Team) (s : State M)
    → s.cancel ≡ false
    → c.slots ≢ []
    → Going group hooked owner stack freed ts c.world c.slots xs ps zs es
    → Landed c
    → ((goes_on (sees c.world s) ≡ true) × (1 ≤ steps_left c.need c.slots xs ps) × CanStep code c)
      ⊎ ((goes_on (sees c.world s) ≡ false) × IsDone stack freed ts c.world c.slots)
looks code {group} {hooked} {owner} {stack} {freed} {ts} {xs} {ps} {zs} {es} c s runs n g land =
    elim (none_or_more (steps_left c.need c.slots xs ps)) [
      | inl over ↦ let d = over-IsDone c.need g over in inr (ground (arith, d.alive.counted), d)
      | inr more ↦ inl (on more, more, goes_further code c.need g land n more)
    ]
  where
    on : 1 ≤ steps_left c.need c.slots xs ps → goes_on (sees c.world s) ≡ true
    on more = elim (Bool-cases (c.world.tasks.count == 0)) [
      | inl zero_left ↦
          let none_alive = nil_of_length zs (sym g.alive.counted ∙ ground arith) in
          absurd (
            let e = empty-over c.need (
              subst (λ l. Going group hooked owner stack freed ts c.world c.slots xs ps l es)
                none_alive g) in
            omega arith)
      | inr some_left ↦ ground arith
    ]

module _ {M : Type 0} (cb : Callbacks M) (sleeps : (v : State M) → cb.sleep timeout_long v ≡ v)
    (code : Ptr → ℕ) {group : Ptr} {hooked : Ptr → Bool} {owner stack : Ptr → Ptr}
    {freed ts : List Ptr} where
  pub main_loop-sees :
      {k : ℕ} {c c' : Team} {ws : List World} {xs ps zs es : List Ptr} (any : Bool) (s : State M)
      → Seen code k c ws c'
      → s.modulescount ≡ 0
      → s.cancel ≡ false
      → c.slots ≢ []
      → Going group hooked owner stack freed ts c.world c.slots xs ps zs es
      → Landed c
      → LoopsWith code stack freed ts k
          (steps_left c.need c.slots xs ps)
          c'
          s
          (main_loop cb (map sees ws) any s)
  unfolding main_loop
  main_loop-sees {c'} any s (last steps) bare runs n g land =
      let (xs1, ps1, zs1, es1, g1, left, land1) = Steps-Going steps land g in
      let round = main_loop-bare cb (sees c'.world) [] any s bare sleeps in
      elim (looks code c' s runs (Steps-nonempty steps n) g1 land1) [
        | inl (on, more, can) ↦
            inl (sees c'.world s, round ∙ rw on refl, omega (arith, left, more), can)
        | inr (stops, d) ↦ inr (c'.world, c'.slots, round ∙ rw stops refl, d)
      ]
  main_loop-sees {c'} any s (look {c' = c1} {ws} steps seen) bare runs n g land =
      let (xs1, ps1, zs1, es1, g1, left, land1) = Steps-Going steps land g in
      let n1 = Steps-nonempty steps n in
      let round = main_loop-bare cb (sees c1.world) (map sees ws) any s bare sleeps in
      let rest = main_loop-sees false (sees c1.world s) seen bare runs n1 g1 land1 in
      elim (looks code c1 s runs n1 g1 land1) [
        | inl (on, more, can) ↦ elim rest [
          | inl (v, runs', few, can') ↦ inl (v, round ∙ rw on runs', omega (arith, left, few), can')
          | inr (w, slots, ends, d) ↦ inr (w, slots, round ∙ rw on ends, d)
        ]
        | inr (stops, d) ↦ inr (c1.world, c1.slots, round ∙ rw stops refl, d)
      ]
