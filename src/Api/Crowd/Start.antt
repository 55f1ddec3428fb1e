-- ===== src/Api/Crowd/Start.antt =====
-- How the worker threads of pcaio/worker.c start.
use pcaio.Prelude.{
  null, has, ℕ, ◌≡◌, refl, sym, ◌∙◌, ◌≢◌, false, List, [], ◌∷◌, map, arith, Ptr, Tid,
}
use pcaio.World.{World}
use pcaio.Worker.{set_context}
use pcaio.Worker.Team.{Team, Slot, at, idle, AllIdle}
use pcaio.Threadlocal
use pcaio.Worker.Team.Landing.{threads, AllLand}
use pcaio.Master.{State}

-- A worker thread that starts: the address of its variable for the context, and what
-- `pthread_setspecific` returns for it.
pub record Starter : Type 0 where
  pub thread : Tid
  pub landing : Ptr
  pub err : ℕ

-- The worker threads start, one after the other.
abbrev pub key_all : List Starter → World → World
key_all [] w = w
key_all (r ∷ rs) w = key_all rs (set_context r.err r.thread r.landing w)

abbrev pub start_all : {M : Type 0} → List Starter → State M → State M
start_all rs s = record s { world = key_all rs s.world }

abbrev pub all_idle : List Starter → List Slot
all_idle rs = map (λ (r : Starter). at r.thread idle) rs

pub all_idle-AllIdle : (rs : List Starter) → AllIdle (all_idle rs)
all_idle-AllIdle [] = tt
all_idle-AllIdle (r ∷ rs) = (refl, all_idle-AllIdle rs)

pub all_idle_some : (rs : List Starter) → rs ≢ [] → all_idle rs ≢ []
all_idle_some [] n e = n refl
all_idle_some (r ∷ rs) n e = cc

abbrev starters : List Starter → List Tid
starters [] = []
starters (r ∷ rs) = r.thread ∷ starters rs

-- The worker threads are different ones, and each can store the address of its variable.
abbrev pub AllStart : List Starter → Type 0
AllStart [] = Unit {0}
AllStart (r ∷ rs) =
    (r.landing ≢ null) × (r.err ≡ 0) × (has r.thread (starters rs) ≡ false) × AllStart rs

starters-threads :
    (i : Tid) (rs : List Starter) → has i (threads (all_idle rs)) ≡ has i (starters rs)
starters-threads i [] = refl
starters-threads i (r ∷ rs) = let rest = starters-threads i rs in ground arith

key_all-keeps :
    (i : Tid) (rs : List Starter) (w : World)
    → has i (starters rs) ≡ false
    → (key_all rs w).context_key.value i ≡ w.context_key.value i
unfolding set_context Threadlocal.set
key_all-keeps i [] w out = refl
key_all-keeps i (r ∷ rs) w out =
    let w1 : World = set_context r.err r.thread r.landing w in
    let rest = key_all-keeps i rs w1 (ground arith) in
    let here : w1.context_key.value i ≡ w.context_key.value i = ground arith in rest ∙ here

pub key_all-AllLand :
    (task : Tid → Ptr) (rs : List Starter) (w : World)
    → AllStart rs
    → AllLand task (key_all rs w).context_key.value (all_idle rs)
unfolding set_context Threadlocal.set
key_all-AllLand task [] w h = tt
key_all-AllLand task (r ∷ rs) w (live, ok, apart, rest) =
    let w1 : World = set_context r.err r.thread r.landing w in
    let kept = key_all-keeps r.thread rs w1 apart in
    let here : w1.context_key.value r.thread ≡ r.landing = ground arith in
    (
      λ e. live (sym here ∙ sym kept ∙ e),
      starters-threads r.thread rs ∙ apart,
      key_all-AllLand task rs w1 rest,
    )

-- The workers once they have started, in this state.
abbrev pub team_at : {M : Type 0} → (need : Ptr → ℕ) → List Starter → State M → Team
team_at need rs s = record { world = key_all rs s.world; need = need; slots = all_idle rs }
