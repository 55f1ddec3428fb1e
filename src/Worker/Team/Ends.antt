-- ===== src/Worker/Team/Ends.antt =====
-- A task ends while other workers go on; the last one of a group schedules the task that waits.
use Prim.Native.Nat.{bit_and, bit_or}
use pcaio.Prelude.{
  ℕ, ◌+◌, ◌≤◌, ◌≡◌, refl, sym, ap, subst, ◌∙◌, inl, inr, Bool, true, false, not, some, List, ◌∷◌,
  ◌++◌, arith, ◌==◌, if◌then◌else◌, Ptr, null, is_null, update, has, length, Tid, Bool-cases,
}
use pcaio.QueueT.Fifo.{IsQueue}
use pcaio.ListT.{DList}
use pcaio.ListT.Refine.{IsList}
use pcaio.World.{World, task_terminated}
use pcaio.Task
use pcaio.Task.Main.{terminated_flag}
use pcaio.Gather
use pcaio.Worker.Plan.{came_back}
use pcaio.Worker.Team.{runs, back, Slot, at, held}
use pcaio.Worker.Team.Count.{times, held-at, length-held-at, update-outside}
use pcaio.Worker.Team.Going.{
  IsReady, Parks, pending, Going, AllFit-split, AllFit-join, AllFit-change,
}
use pcaio.Worker.Team.Moves.{once}

-- The task is flagged and its status is told, before its hook runs.
abbrev pub marked : Ptr → (code : ℕ) → World → World
marked t code w =
    let w1 = record w { flags = update w.flags t (bit_or (w.flags t) task_terminated) } in
    if is_null (w1.status t)
    then w1
    else record w1 { status_at = update w1.status_at (w1.status t) code }

pub ends_alone :
    (t : Ptr) (code : ℕ) (w : World)
    → w.terminated t ≡ false
    → w.callback t ≡ null
    → came_back (some code) t w ≡ marked t code w
unfolding Task.finish
ends_alone t code w hook callback = elim (Bool-cases (is_null (w.status t))) [
  | inl nowhere ↦ rw nowhere (rw hook (ground arith))
  | inr somewhere ↦ rw somewhere (rw hook (ground arith))
]

either_way : {A : Type 0} (b : Bool) (a : A) → (if b then a else a) ≡ a
either_way true a = refl
either_way false a = refl

pub ends_hooked :
    (t : Ptr) (code : ℕ) (w : World)
    → w.terminated t ≡ true
    → came_back (some code) t w ≡ Gather.taskterminated t (marked t code w)
unfolding Task.finish
ends_hooked t code w hook = elim (Bool-cases (is_null (w.status t))) [
  | inl nowhere ↦ rw nowhere (rw hook (either_way _ _))
  | inr somewhere ↦ rw somewhere (rw hook (either_way _ _))
]

-- What the end of a task keeps of the rest.
pub record Kept (t : Ptr) (w v : World) : Type 0 where
  pub tasks : v.tasks ≡ w.tasks
  pub freed : v.freed ≡ w.freed
  pub stack : v.stack ≡ w.stack
  pub terminated : v.terminated ≡ w.terminated
  pub callback : v.callback ≡ w.callback
  pub gather : v.gather ≡ w.gather
  pub gather_task : v.gather_task ≡ w.gather_task
  pub flags : v.flags ≡ update w.flags t (bit_or (w.flags t) task_terminated)

pub record Marked (t : Ptr) (w v : World) : Type 0 where
  pub kept : Kept t w v
  pub taskq : v.taskq ≡ w.taskq
  pub gather_count : v.gather_count ≡ w.gather_count

pub marked-Marked : (t : Ptr) (code : ℕ) (w : World) → Marked t w (marked t code w)
marked-Marked t code w = elim (Bool-cases (is_null (w.status t))) [
  | inl nowhere ↦ rw nowhere record {
    kept = record {
      tasks = refl;
      freed = refl;
      stack = refl;
      terminated = refl;
      callback = refl;
      gather = refl;
      gather_task = refl;
      flags = refl;
    };
    taskq = refl;
    gather_count = refl;
  }
  | inr somewhere ↦ rw somewhere record {
    kept = record {
      tasks = refl;
      freed = refl;
      stack = refl;
      terminated = refl;
      callback = refl;
      gather = refl;
      gather_task = refl;
      flags = refl;
    };
    taskq = refl;
    gather_count = refl;
  }
]

-- The task of a worker has ended, and the queue now holds `xs'`, while `ps'` wait for others.
pub ended-Going :
    {group : Ptr} {hooked : Ptr → Bool} {owner stack : Ptr → Ptr} {freed ts : List Ptr} {w : World}
    {xs ps zs es : List Ptr} (ls rs : List Slot) (i : Tid) (code : ℕ) (t : Ptr) (v : World)
    (xs' ps' : List Ptr)
    → Going group hooked owner stack freed ts w (ls ++ (at i (runs t) ∷ rs)) xs ps zs es
    → Kept t w v
    → IsQueue v.taskq xs'
    → ((a : Ptr) → times a xs + times a ps ≡ times a xs' + times a ps')
    → length xs' + length ps' ≡ length xs + length ps
    → ((a : Ptr) → has a xs' ≡ true → IsReady v.flags a)
    → Parks v group (pending v.terminated xs' (ls ++ (at i (back (some code) t) ∷ rs))) ps'
    → Going group hooked owner stack freed ts v
        (ls ++ (at i (back (some code) t) ∷ rs))
        xs'
        ps'
        zs
        es
ended-Going {w} {xs} {ps} {zs} ls rs i code t v xs' ps' g k is moved size ready parks =
    let (before, here, behind) = AllFit-split w.flags ls rs i (runs t) g.fits in
    let (living, out, apart, apart', unparked) = once ls rs i (runs t) t g (ground arith) in
    let marks : v.flags t ≡ bit_or (w.flags t) task_terminated =
      ap (λ (f : Ptr → ℕ). f t) k.flags ∙ ground arith in
    let over : not (bit_and (v.flags t) task_terminated == 0) ≡ true =
      rw (marks, terminated_flag (w.flags t)) refl in
    let others : (ss : List Slot)
        → times t (held ss) ≡ 0
        → (a : Ptr) → 1 ≤ times a (held ss)
        → v.flags a ≡ w.flags a =
      λ ss none_of a l.
        ap (λ (f : Ptr → ℕ). f a) k.flags
        ∙ update-outside w.flags t (bit_or (w.flags t) task_terminated) a (held ss) none_of l in
    record {
      queue = is;
      alive = subst (λ (l : DList). IsList l zs) (sym k.tasks) g.alive;
      same = λ a. omega (
        arith,
        g.same a,
        moved a,
        held-at a ls rs i (runs t),
        held-at a ls rs i (back (some code) t),
      );
      all = g.all;
      ready = ready;
      fits =
          AllFit-join v.flags ls rs i (back (some code) t)
            (AllFit-change w.flags v.flags ls (others ls apart) before) (here.0, over)
            (AllFit-change w.flags v.flags rs (others rs apart') behind);
      hooks = λ a h.
          ap (λ (f : Ptr → Ptr). f a) k.gather
          ∙ g.hooks a (sym (ap (λ (f : Ptr → Bool). f a) k.terminated) ∙ h);
      parks = parks;
      no_callback = λ a. ap (λ (f : Ptr → Ptr). f a) k.callback ∙ g.no_callback a;
      hooks_same = k.terminated ∙ g.hooks_same;
      owners = k.gather_task ∙ g.owners;
      stacks = k.stack ∙ g.stacks;
      disposed = k.freed ∙ g.disposed;
      room = omega (
        arith,
        g.room,
        size,
        length-held-at ls rs i (runs t),
        length-held-at ls rs i (back (some code) t),
      );
    }
