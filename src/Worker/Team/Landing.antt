-- ===== src/Worker/Team/Landing.antt =====
-- What the threads of several workers have stored: their tasks, and the contexts to which these return.
use Prim.Native.Nat.{bit_or}
use pcaio.Prelude.{
  ℕ, ◌≡◌, refl, sym, ap, ◌∙◌, ◌≢◌, true, false, none, some, List, [], ◌∷◌, ◌++◌, arith, ◌==◌, Ptr,
  null, is_null, subst, false≢true, Status, Status-cases, update, has, Tid, if◌then◌else◌, done,
  Bool-cases, inl, inr,
}
use pcaio.Prelude.Bits.{bit_or-zero}
use pcaio.World.{World, schedule, enqueue, task_terminated}
use pcaio.QueueT
use pcaio.Relax.{self, add_flags, relax-swap}
use pcaio.Task
use pcaio.Gather
use pcaio.Threadlocal
use pcaio.Threadlocal.{Key}
use pcaio.Worker.Turn.{has_ended, is_held, settle-ended, settle-held, settle-ready}
use pcaio.Worker.{settle, cleanup}
use pcaio.Worker.Moves.{world_in}
use pcaio.Worker.Plan.{Act, came_back}
use pcaio.Worker.Team.{Phase, idle, runs, back, Slot, Team, at, gives_way, returns, comes_out}

abbrev pub threads : List Slot → List Tid
threads [] = []
threads (s ∷ ss) = s.thread ∷ threads ss

-- The thread has a context to land in, and has stored the task that it runs.
abbrev pub Lands : (task landing : Tid → Ptr) → Tid → Phase → Type 0
Lands task landing i idle = landing i ≢ null
Lands task landing i (runs t) = (landing i ≢ null) × (task i ≡ t)
Lands task landing i (back o t) = landing i ≢ null

-- The workers are different threads, and this holds of each.
abbrev pub AllLand : (task landing : Tid → Ptr) → List Slot → Type 0
AllLand task landing [] = Unit {0}
AllLand task landing (s ∷ ss) =
    Lands task landing s.thread s.phase
    × (has s.thread (threads ss) ≡ false)
    × AllLand task landing ss

pub AllLand-here :
    (task landing : Tid → Ptr) (ls rs : List Slot) (i : Tid) (p : Phase)
    → AllLand task landing (ls ++ (at i p ∷ rs))
    → Lands task landing i p
AllLand-here task landing [] rs i p h = h.0
AllLand-here task landing (l ∷ ls) rs i p h = AllLand-here task landing ls rs i p h.2

Lands-change :
    (task task' landing : Tid → Ptr) (i : Tid) (p : Phase)
    → task' i ≡ task i
    → Lands task landing i p
    → Lands task' landing i p
Lands-change task task' landing i idle e h = h
Lands-change task task' landing i (runs t) e h = (h.0, e ∙ h.1)
Lands-change task task' landing i (back o t) e h = h

AllLand-others :
    (task task' landing : Tid → Ptr) (i : Tid) (ss : List Slot)
    → ((j : Tid) → (j == i) ≡ false → task' j ≡ task j)
    → has i (threads ss) ≡ false
    → AllLand task landing ss
    → AllLand task' landing ss
AllLand-others task task' landing i [] same out h = tt
AllLand-others task task' landing i (s ∷ ss) same out h = (
  Lands-change task task' landing s.thread s.phase (same s.thread (ground arith)) h.0,
  h.1,
  AllLand-others task task' landing i ss same (ground arith) h.2,
)

threads-at :
    (j : Tid) (ls rs : List Slot) (i : Tid) (p p' : Phase)
    → has j (threads (ls ++ (at i p ∷ rs))) ≡ has j (threads (ls ++ (at i p' ∷ rs)))
threads-at j [] rs i p p' = refl
threads-at j (l ∷ ls) rs i p p' = let rest = threads-at j ls rs i p p' in ground arith

has-threads :
    (ls rs : List Slot) (i : Tid) (p : Phase) → has i (threads (ls ++ (at i p ∷ rs))) ≡ true
has-threads [] rs i p = ground arith
has-threads (l ∷ ls) rs i p = let rest = has-threads ls rs i p in ground arith

-- One worker changes its phase and what it has stored.
pub AllLand-at :
    (task task' landing : Tid → Ptr) (ls rs : List Slot) (i : Tid) (p p' : Phase)
    → ((j : Tid) → (j == i) ≡ false → task' j ≡ task j)
    → Lands task' landing i p'
    → AllLand task landing (ls ++ (at i p ∷ rs))
    → AllLand task' landing (ls ++ (at i p' ∷ rs))
AllLand-at task task' landing [] rs i p p' same now h =
    (now, h.1, AllLand-others task task' landing i rs same h.1 h.2)
AllLand-at task task' landing (l ∷ ls) rs i p p' same now h =
    let here = has-threads ls rs i p in
    let apart : (l.thread == i) ≡ false = elim (Bool-cases (l.thread == i)) [
      | inl same_thread ↦
          let e : l.thread ≡ i = ground arith in
          absurd (
            false≢true
              (sym (subst (λ j. has j (threads (ls ++ (at i p ∷ rs))) ≡ false) e h.1) ∙ here))
      | inr other ↦ other
    ] in
    (
      Lands-change task task' landing l.thread l.phase (same l.thread apart) h.0,
      sym (threads-at l.thread ls rs i p p') ∙ h.1,
      AllLand-at task task' landing ls rs i p p' same now h.2,
    )

-- A flag that is no flag.
add_flags-zero : (t : Ptr) (w : World) → add_flags t 0 w ≡ w
add_flags-zero t w = ap (λ (f : Ptr → ℕ). record w { flags = f }) (λ k a. each a k)
  where
    each : (a : Ptr) → update w.flags t (bit_or (w.flags t) 0) a ≡ w.flags a
    each a = let same = bit_or-zero (w.flags t) in ground arith

terminated-keys :
    (t : Ptr) (w : World)
    → ((Gather.taskterminated t w).task_key ≡ w.task_key)
      × ((Gather.taskterminated t w).context_key ≡ w.context_key)
unfolding Gather.taskterminated schedule enqueue
terminated-keys t w = ground arith

pub finish-keys :
    (t : Ptr) (code : ℕ) (w : World)
    → ((Task.finish (λ c u v. v) t code w).task_key ≡ w.task_key)
      × ((Task.finish (λ c u v. v) t code w).context_key ≡ w.context_key)
unfolding Task.finish
finish-keys t code w =
    let w1 : World = record w { flags = update w.flags t (bit_or (w.flags t) task_terminated) } in
    let w2 : World =
      if is_null (w1.status t)
      then w1
      else record w1 { status_at = update w1.status_at (w1.status t) code } in
    let w3 : World = if w2.terminated t then Gather.taskterminated t w2 else w2 in
    let two : (w2.task_key ≡ w.task_key) × (w2.context_key ≡ w.context_key) =
      elim (Bool-cases (is_null (w1.status t))) [
        | inl e ↦ rw e (refl, refl)
        | inr e ↦ rw e (refl, refl)
      ] in
    let three : (w3.task_key ≡ w.task_key) × (w3.context_key ≡ w.context_key) =
      elim (Bool-cases (w2.terminated t)) [
        | inl e ↦ let (a, b) = terminated-keys t w2 in rw e (a ∙ two.0, b ∙ two.1)
        | inr e ↦ rw e two
      ] in
    elim (Bool-cases (is_null (w3.callback t))) [ inl e ↦ rw e three | inr e ↦ rw e three ]

free-keys :
    (t : Ptr) (w : World)
    → ((Task.free t w).task_key ≡ w.task_key) × ((Task.free t w).context_key ≡ w.context_key)
unfolding Task.free
free-keys t w = ground arith

pub settle-keys :
    (t : Ptr) (w : World)
    → ((world_in (settle t w)).task_key.value ≡ w.task_key.value)
      × ((world_in (settle t w)).context_key.value ≡ w.context_key.value)
unfolding settle enqueue cleanup Threadlocal.delete
settle-keys t w = elim (Bool-cases (has_ended w t)) [
  | inl ended ↦
      let (a, b) = free-keys t w in
      rw (settle-ended t w ended) (ap (λ (k : Key). k.value) a, ap (λ (k : Key). k.value) b)
  | inr lives ↦ elim (Bool-cases (is_held w t)) [
    | inl held ↦ rw (settle-held t w lives held) (refl, refl)
    | inr free ↦ elim (Status-cases (QueueT.push t w.taskq).0) [
      | inl accepted ↦ rw (settle-ready t w lives free accepted) (refl, refl)
      | inr refused ↦ rw (lives, free, refused) (refl, refl)
    ]
  ]
]

-- Where the thread has stored both, a task comes back as it should.
pub comes_out-Lands :
    (i : Tid) (o : Act) (t : Ptr) (w : World)
    → t ≢ null
    → Lands w.task_key.value w.context_key.value i (runs t)
    → comes_out i o t w ≡ some (came_back o t w)
unfolding gives_way returns self Threadlocal.get
comes_out-Lands i none t w live h =
    rw (gives_way, relax-swap i (λ u. (done, u)) 0 w (λ e. live (sym h.1 ∙ e)) h.0)
      (ap (λ (r : Status × World). some r.1)
          (relax-swap i (λ u. (done, u)) 0 w (λ e. live (sym h.1 ∙ e)) h.0)
        ∙ ap some (add_flags-zero (self i w) w))
comes_out-Lands i (some code) t w live h =
    let kept = ap (λ (k : Key). k.value i) (finish-keys t code w).1 in
    let land : is_null ((Task.finish (λ c u v. v) t code w).context_key.value i) ≡ false =
      ground (arith, h.0) in
    rw land refl

pub came_back-keys :
    (o : Act) (t : Ptr) (w : World)
    → ((came_back o t w).task_key ≡ w.task_key) × ((came_back o t w).context_key ≡ w.context_key)
came_back-keys none t w = (refl, refl)
came_back-keys (some code) t w = finish-keys t code w

-- This holds of the workers of a team.
abbrev pub Landed : Team → Type 0
Landed c = AllLand c.world.task_key.value c.world.context_key.value c.slots
