-- ===== src/Worker/Team/Trace.antt =====
-- Several workers, in whatever order they take their steps: what holds after each, and how many are left.
use pcaio.Prelude.{
  ℕ, suc, ◌+◌, ◌-◌, ◌≡◌, sym, ap, subst, ◌∙◌, inl, inr, none, some, List, [], ◌∷◌, ◌++◌, arith,
  ◌==◌, Ptr, Bool, Bool-cases, Tid, remove,
}
use pcaio.World.{World}
use pcaio.Worker.Moves.{world_in, pop-head}
use pcaio.Worker.Plan.{came_back}
use pcaio.Worker.Needs.{next_act, next_need, total, total-append, total-update}
use pcaio.Worker.Team.{
  idle, runs, back, Slot, at, Team, Step, takes, comes, settles, Steps, stay, go, owed_in,
  steps_left,
}
use pcaio.Worker.Team.Count.{has_none, owed-at, owed-update}
use pcaio.Worker.Team.Going.{Going, takes-Going}
use pcaio.Worker.Team.Moves.{once, yields-Going, requeues-Going, leaves-Going}
use pcaio.Worker.Team.Landing.{AllLand, Landed}
use pcaio.Worker.Team.Stays.{back_as, Step-Landed}
use pcaio.Worker.Team.Wakes.{Left, Moved}
use pcaio.Worker.Team.Hook.{ends-Going}

Moved-none : (xs ps : List Ptr) → Moved xs ps xs ps
Moved-none xs ps need i = total need xs + total need ps

comes-Going :
    {group : Ptr} {hooked : Ptr → Bool} {owner stack : Ptr → Ptr} {freed ts : List Ptr} {w : World}
    {xs ps zs es : List Ptr} (code need : Ptr → ℕ) (ls rs : List Slot) (i : Tid) (t : Ptr)
    → Going group hooked owner stack freed ts w (ls ++ (at i (runs t) ∷ rs)) xs ps zs es
    → Left group hooked owner stack freed ts
        (came_back (next_act code need t) t w)
        (ls ++ (at i (back (next_act code need t) t) ∷ rs))
        xs
        ps
        zs
        es
comes-Going {xs} {ps} code need ls rs i t g = elim (Bool-cases (need t == 0)) [
  | inl last ↦ rw last (ends-Going ls rs i (code t) t g)
  | inr more ↦ rw more (xs, ps, yields-Going ls rs i t g, Moved-none xs ps)
]

owed-comes :
    (code need : Ptr → ℕ) (t : Ptr)
    → suc (owed_in (next_need need t) (back (next_act code need t) t)) ≡ owed_in need (runs t)
owed-comes code need t = elim (Bool-cases (need t == 0)) [
  | inl last ↦ rw last (ground arith)
  | inr more ↦ rw more (ground arith)
]

steps_left-comes :
    {group : Ptr} {hooked : Ptr → Bool} {owner stack : Ptr → Ptr} {freed ts : List Ptr} {w : World}
    {xs ps zs es : List Ptr} (code need : Ptr → ℕ) (ls rs : List Slot) (i : Tid) (t : Ptr)
    → Going group hooked owner stack freed ts w (ls ++ (at i (runs t) ∷ rs)) xs ps zs es
    → suc (steps_left (next_need need t) (ls ++ (at i (back (next_act code need t) t) ∷ rs)) xs ps)
      ≡ steps_left need (ls ++ (at i (runs t) ∷ rs)) xs ps
steps_left-comes {xs} {ps} code need ls rs i t g =
    let (living, out, apart, apart', unparked) = once ls rs i (runs t) t g (ground arith) in
    omega (
      arith,
      owed-comes code need t,
      total-update need t (need t - 1) xs (has_none t xs out),
      total-update need t (need t - 1) ps (has_none t ps unparked),
      owed-update need t (need t - 1) ls apart,
      owed-update need t (need t - 1) rs apart',
      owed-at need ls rs i (runs t),
      owed-at (next_need need t) ls rs i (back (next_act code need t) t),
    )

focus :
    {group : Ptr} {hooked : Ptr → Bool} {owner stack : Ptr → Ptr} {freed ts : List Ptr} {w : World}
    {ss ss' : List Slot} {xs ps zs es : List Ptr} (need : Ptr → ℕ)
    → ss ≡ ss'
    → Going group hooked owner stack freed ts w ss xs ps zs es
    → Going group hooked owner stack freed ts w ss' xs ps zs es
      × (steps_left need ss xs ps ≡ steps_left need ss' xs ps)
focus {group} {hooked} {owner} {stack} {freed} {ts} {w} {xs} {ps} {zs} {es} need e g = (
  subst (λ l. Going group hooked owner stack freed ts w l xs ps zs es) e g,
  ap (λ l. steps_left need l xs ps) e,
)

module _ {group : Ptr} {hooked : Ptr → Bool} {owner stack : Ptr → Ptr} {freed ts : List Ptr}
    {code : Ptr → ℕ} where
  -- Each step keeps all that, and is one step less to go.
  Step-Going :
      {c c' : Team} {xs ps zs es : List Ptr}
      → Step code c c'
      → Landed c
      → Going group hooked owner stack freed ts c.world c.slots xs ps zs es
      → (xs' : List Ptr) × (ps' : List Ptr) × (zs' : List Ptr) × (es' : List Ptr) × Going group
          hooked owner stack freed ts c'.world c'.slots xs' ps' zs' es'
        × (suc (steps_left c'.need c'.slots xs' ps') ≡ steps_left c.need c.slots xs ps)
  unfolding total
  Step-Going {c} {xs} {ps} {zs} {es} (takes ls rs i t q e took) land g =
      let (ys, cut, is, live) = pop-head t q g.queue took in
      let (g', size) =
        focus c.need e
          (subst (λ l. Going group hooked owner stack freed ts c.world c.slots l ps zs es) cut g) in
      let size' : steps_left c.need c.slots xs ps ≡ steps_left c.need c.slots (t ∷ ys) ps =
        ap (λ l. steps_left c.need c.slots l ps) cut in
      (
        ys,
        ps,
        zs,
        es,
        takes-Going ls rs i 0 t q g' is live,
        omega (arith, size, size', owed-at c.need ls rs i idle, owed-at c.need ls rs i (runs t)),
      )
  Step-Going {c} {xs} {ps} {zs} {es} (comes ls rs i t v e out) land g =
      let (g', size) = focus c.need e g in
      let (xs', ps', g'', moved) = comes-Going code c.need ls rs i t g' in
      let same =
        back_as ls rs i (next_act code c.need t) t g'
          (subst (AllLand c.world.task_key.value c.world.context_key.value) e land) out in
      (
        xs',
        ps',
        zs,
        es,
        subst
            (λ u.
              Going group hooked owner stack freed ts u
                (ls ++ (at i (back (next_act code c.need t) t) ∷ rs)) xs' ps' zs es)
            same g'',
        omega (arith, size, moved (next_need c.need t), steps_left-comes code c.need ls rs i t g'),
      )
  Step-Going {c} {xs} {ps} {zs} {es} (settles ls rs i err none t v e back_home) land g =
      let (g', size) = focus c.need e g in
      let (v', settled, g'') = requeues-Going ls rs i err t g' in
      let same = ap world_in (sym settled ∙ back_home) in
      (
        xs ++ (t ∷ []),
        ps,
        zs,
        es,
        subst
            (λ u.
              Going group hooked owner stack freed ts u (ls ++ (at i idle ∷ rs)) (xs ++ (t ∷ [])) ps
                zs es)
            same g'',
        omega (
          arith,
          size,
          owed-at c.need ls rs i idle,
          owed-at c.need ls rs i (back none t),
          total-append c.need xs (t ∷ []),
        ),
      )
  Step-Going {c} {xs} {ps} {zs} {es} (settles ls rs i err (some r) t v e back_home) land g =
      let (g', size) = focus c.need e g in
      let (v', settled, g'') = leaves-Going ls rs i err r t g' in
      let same = ap world_in (sym settled ∙ back_home) in
      (
        xs,
        ps,
        remove t zs,
        es ++ (t ∷ []),
        subst
            (λ u.
              Going group hooked owner stack freed ts u (ls ++ (at i idle ∷ rs)) xs ps (remove t zs)
                (es ++ (t ∷ [])))
            same g'',
        omega (arith, size, owed-at c.need ls rs i idle, owed-at c.need ls rs i (back (some r) t)),
      )

  pub Steps-Going :
      {n : ℕ} {c c' : Team} {xs ps zs es : List Ptr}
      → Steps code n c c'
      → Landed c
      → Going group hooked owner stack freed ts c.world c.slots xs ps zs es
      → (xs' : List Ptr) × (ps' : List Ptr) × (zs' : List Ptr) × (es' : List Ptr) × Going group
          hooked owner stack freed ts c'.world c'.slots xs' ps' zs' es'
        × (n + steps_left c'.need c'.slots xs' ps' ≡ steps_left c.need c.slots xs ps)
        × Landed c'
  Steps-Going {xs} {ps} {zs} {es} stay land g = (xs, ps, zs, es, g, omega arith, land)
  Steps-Going (go s rest) land g =
      let (xs1, ps1, zs1, es1, g1, less) = Step-Going s land g in
      let (xs2, ps2, zs2, es2, g2, left, land2) = Steps-Going rest (Step-Landed s g land) g1 in
      (xs2, ps2, zs2, es2, g2, omega (arith, less, left), land2)
