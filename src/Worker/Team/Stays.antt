-- ===== src/Worker/Team/Stays.antt =====
-- The steps of several workers keep what their threads have stored.
use pcaio.Prelude.{
  ℕ, ◌≡◌, refl, sym, ap, subst, ◌∙◌, some, Bool, List, ◌∷◌, ◌++◌, arith, Ptr, null, Tid, update,
}
use pcaio.World.{World}
use pcaio.Threadlocal
use pcaio.Threadlocal.{Key}
use pcaio.Worker.{set_task, settle}
use pcaio.Worker.Moves.{world_in}
use pcaio.Worker.Plan.{Act, came_back}
use pcaio.Worker.Needs.{next_act}
use pcaio.Worker.Team.{idle, runs, back, Slot, at, Team, Step, takes, comes, settles, comes_out}
use pcaio.Worker.Team.Landing.{
  AllLand, AllLand-here, AllLand-at, Landed, comes_out-Lands, came_back-keys, settle-keys,
}
use pcaio.Worker.Team.Going.{Going, AllFit-split}

AllLand-keys :
    {task task' landing landing' : Tid → Ptr} (ss : List Slot)
    → task' ≡ task
    → landing' ≡ landing
    → AllLand task landing ss
    → AllLand task' landing' ss
AllLand-keys {task} {landing'} ss e e' h =
    subst (λ f. AllLand f landing' ss) (sym e) (subst (λ f. AllLand task f ss) (sym e') h)

-- The task of a worker comes back.
pub back_as :
    {group : Ptr} {hooked : Ptr → Bool} {owner stack : Ptr → Ptr} {freed ts : List Ptr}
    {w v : World} {xs ps zs es : List Ptr} (ls rs : List Slot) (i : Tid) (o : Act) (t : Ptr)
    → Going group hooked owner stack freed ts w (ls ++ (at i (runs t) ∷ rs)) xs ps zs es
    → AllLand w.task_key.value w.context_key.value (ls ++ (at i (runs t) ∷ rs))
    → comes_out i o t w ≡ some v
    → came_back o t w ≡ v
back_as {w} {v} ls rs i o t g h out =
    let (before, here, behind) = AllFit-split w.flags ls rs i (runs t) g.fits in
    let lands =
      comes_out-Lands i o t w here.0
        (AllLand-here w.task_key.value w.context_key.value ls rs i (runs t) h) in
    let same = sym lands ∙ out in cc

pub Step-Landed :
    {group : Ptr} {hooked : Ptr → Bool} {owner stack : Ptr → Ptr} {freed ts : List Ptr}
    {code : Ptr → ℕ} {c c' : Team} {xs ps zs es : List Ptr}
    → Step code c c'
    → Going group hooked owner stack freed ts c.world c.slots xs ps zs es
    → Landed c
    → Landed c'
unfolding set_task Threadlocal.set
Step-Landed {c} (takes ls rs i t q e took) g h =
    let task = c.world.task_key.value in
    let landing = c.world.context_key.value in
    let h' = subst (AllLand task landing) e h in
    AllLand-at task (update task i t) landing ls rs i idle (runs t) (λ j other. ground arith)
      (AllLand-here task landing ls rs i idle h', ground arith) h'
Step-Landed {group} {hooked} {owner} {stack} {freed} {ts} {code} {c} {xs} {ps} {zs} {es}
      (comes ls rs i t v e out) g h =
    let o = next_act code c.need t in
    let task = c.world.task_key.value in
    let landing = c.world.context_key.value in
    let h' = subst (AllLand task landing) e h in
    let same =
      back_as ls rs i o t
        (subst (λ l. Going group hooked owner stack freed ts c.world l xs ps zs es) e g) h' out in
    let (tasks, landings) = came_back-keys o t c.world in
    AllLand-keys (ls ++ (at i (back o t) ∷ rs))
      (ap (λ (u : World). u.task_key.value) (sym same) ∙ ap (λ (k : Key). k.value) tasks)
      (ap (λ (u : World). u.context_key.value) (sym same) ∙ ap (λ (k : Key). k.value) landings)
      (AllLand-at task task landing ls rs i (runs t) (back o t) (λ j other. refl)
        (AllLand-here task landing ls rs i (runs t) h').0 h')
Step-Landed {c} (settles ls rs i err o t v e settled) g h =
    let task = c.world.task_key.value in
    let landing = c.world.context_key.value in
    let u : World = set_task err i null c.world in
    let h' = subst (AllLand task landing) e h in
    let (tasks, landings) = settle-keys t u in
    let is : world_in (settle t u) ≡ v = ap world_in settled in
    AllLand-keys (ls ++ (at i idle ∷ rs)) (ap (λ (a : World). a.task_key.value) (sym is) ∙ tasks)
      (ap (λ (a : World). a.context_key.value) (sym is) ∙ landings)
      (AllLand-at task u.task_key.value landing ls rs i (back o t) idle (λ j other. ground arith)
        (AllLand-here task landing ls rs i (back o t) h') h')
