-- ===== src/Worker/Team/Wakes.antt =====
-- The last task of a group that ends: the hook of pcaio/gather.c among several workers.
use Prim.Native.Nat.{bit_or}
use pcaio.Prelude.{
  ℕ, ◌+◌, ◌≤◌, ◌≡◌, refl, sym, ap, subst, ◌∙◌, inl, inr, Bool, true, false, some, List, [], ◌∷◌,
  ◌++◌, arith, ◌==◌, if◌then◌else◌, Ptr, is_null, update, has, has-append, length-append, Tid,
  Bool-cases,
}
use pcaio.QueueT
use pcaio.QueueT.{Queue}
use pcaio.QueueT.Fifo.{IsQueue, push-outside}
use pcaio.World.{World, task_terminated, enqueue, schedule}
use pcaio.Gather.Count.{taskterminated-last}
use pcaio.Worker.Plan.{came_back}
use pcaio.Worker.Team.{runs, back, Slot, at}
use pcaio.Worker.Team.Count.{
  Distinct-times, times, times-append, times_some, has_none, tally-append, active-at,
  update-outside,
}
use pcaio.Worker.Team.Going.{IsReady, pending, Going}
use pcaio.Worker.Team.Moves.{once}
use pcaio.Worker.Team.Ends.{marked, ends_hooked, Kept, marked-Marked, ended-Going}
use pcaio.Worker.Needs.{total, total-append}

-- Where the tasks are that the end of one leaves in the queue, or waiting for others.
abbrev pub Moved : (xs ps xs' ps' : List Ptr) → Type 0
Moved xs ps xs' ps' =
    (need : Ptr → ℕ) → total need xs + total need ps ≡ total need xs' + total need ps'

total_one : (need : Ptr → ℕ) (p : Ptr) → total need (p ∷ []) + total need [] ≡ total need (p ∷ [])
unfolding total
total_one need p = omega arith

-- What such an end leaves.
abbrev pub Left :
    Ptr
    → (hooked : Ptr → Bool) → (owner stack : Ptr → Ptr) → (freed ts : List Ptr) → World
    → List Slot
    → (xs ps zs es : List Ptr) → Type 0
Left group hooked owner stack freed ts v slots xs ps zs es =
    (xs' : List Ptr) × (ps' : List Ptr) × Going group hooked owner stack freed ts v slots xs' ps' zs
      es
    × Moved xs ps xs' ps'

-- The flags of the others are as they were.
pub same_flags_of :
    {t : Ptr} {w v : World} (us : List Ptr)
    → Kept t w v
    → times t us ≡ 0
    → (a : Ptr) → 1 ≤ times a us
    → v.flags a ≡ w.flags a
same_flags_of {t} {w} us k out a l =
    ap (λ (f : Ptr → ℕ). f a) k.flags
    ∙ update-outside w.flags t (bit_or (w.flags t) task_terminated) a us out l

-- How a task counts among those that are waited for.
abbrev pub weight : Bool → ℕ
weight b = if b then 1 else 0

module _ {group : Ptr} {hooked : Ptr → Bool} {owner stack : Ptr → Ptr} {freed ts : List Ptr}
    {w : World} {xs zs es : List Ptr} (ls rs : List Slot) (i : Tid) (code : ℕ) (t : Ptr) where
  pub still_ready :
      {v : World} {ps : List Ptr}
      → Going group hooked owner stack freed ts w (ls ++ (at i (runs t) ∷ rs)) xs ps zs es
      → Kept t w v
      → (a : Ptr) → has a xs ≡ true
      → IsReady v.flags a
  still_ready g k a h =
      let (living, out, apart, apart', unparked) = once ls rs i (runs t) t g (ground arith) in
      rw (same_flags_of xs k out a (times_some a xs h)) (g.ready a h)

  -- It was the last one of the group.
  pub last-Going :
      (p : ℕ)
      → Going group hooked owner stack freed ts w (ls ++ (at i (runs t) ∷ rs)) xs (p ∷ []) zs es
      → w.terminated t ≡ true
      → pending w.terminated xs (ls ++ (at i (back (some code) t) ∷ rs)) ≡ 0
      → Left group hooked owner stack freed ts
          (came_back (some code) t w)
          (ls ++ (at i (back (some code) t) ∷ rs))
          xs
          (p ∷ [])
          zs
          es
  unfolding schedule enqueue
  last-Going p g hook none_left =
      let m = marked-Marked t code w in
      let u : World = marked t code w in
      let u1 : World = record u {
        gather_count = update u.gather_count group 0;
        gather_mutex = update u.gather_mutex group false;
      } in
      let v : World = record u1 { taskq = (QueueT.push p u.taskq).1 } in
      let (living, out, apart, apart', unparked) = once ls rs i (runs t) t g (ground arith) in
      let slots = ls ++ (at i (back (some code) t) ∷ rs) in
      let before : pending w.terminated xs (ls ++ (at i (runs t) ∷ rs)) ≡ 1 = omega (
        arith,
        none_left,
        active-at w.terminated ls rs i (runs t),
        active-at w.terminated ls rs i (back (some code) t),
        ap weight hook,
      ) in
      let k : Kept t w v = record {
        tasks = m.kept.tasks;
        freed = m.kept.freed;
        stack = m.kept.stack;
        terminated = m.kept.terminated;
        callback = m.kept.callback;
        gather = m.kept.gather;
        gather_task = m.kept.gather_task;
        flags = m.kept.flags;
      } in
      let most = Distinct-times p zs g.alive.distinct in
      let here : times p (p ∷ []) ≡ 1 = ground arith in
      let absent = has_none p xs (omega (arith, g.same p, most, here)) in
      let (accepted, is) =
        push-outside p (subst (λ (q : Queue). IsQueue q xs) (sym m.taskq) g.queue) g.parks.4 absent
          (omega (arith, g.room)) in
      let awake : is_null p ≡ false = let live = g.parks.4 in ground arith in
      let named : u.gather_task group ≡ p =
        ap (λ (f : Ptr → Ptr). f group) m.kept.gather_task ∙ g.parks.3 in
      let steps : came_back (some code) t w ≡ v =
        ends_hooked t code w hook
        ∙ taskterminated-last t group u (ap (λ (f : Ptr → Ptr). f t) m.kept.gather ∙ g.hooks t hook)
            (ap (λ (f : Ptr → ℕ). f group) m.gather_count ∙ g.parks.1 ∙ before)
        ∙ rw (named, awake) refl in
      let now : pending v.terminated (xs ++ (p ∷ [])) slots ≡ 0 =
        ap (λ (f : Ptr → Bool). pending f (xs ++ (p ∷ [])) slots) m.kept.terminated
        ∙ omega (arith, none_left, tally-append w.terminated xs (p ∷ []), ap weight g.parks.5) in
      let ready : (a : Ptr) → has a (xs ++ (p ∷ [])) ≡ true → IsReady v.flags a = λ a h.
        elim (Bool-cases (a == p)) [
          | inl same ↦
              let e : a ≡ p = ground arith in
              let kept : v.flags p ≡ w.flags p =
                same_flags_of (p ∷ []) k unparked p (omega (arith, here)) in
              rw (e, kept) g.parks.6
          | inr other ↦ still_ready g k a (ground (arith, has-append a xs (p ∷ [])))
        ] in
      let ended =
        ended-Going ls rs i code t v (xs ++ (p ∷ [])) [] g k is
          (λ a. omega (arith, times-append a xs (p ∷ [])))
          (omega (arith, length-append xs (p ∷ []))) ready now in
      (
        xs ++ (p ∷ []),
        [],
        subst
            (λ (o : World).
              Going group hooked owner stack freed ts o slots (xs ++ (p ∷ [])) [] zs es)
            (sym steps) ended,
        λ need. omega (arith, total-append need xs (p ∷ []), total_one need p),
      )
