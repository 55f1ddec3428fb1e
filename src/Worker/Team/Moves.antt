-- ===== src/Worker/Team/Moves.antt =====
-- The later two steps of a worker, when other workers take theirs in between.
use pcaio.Prelude.{
  ℕ, ◌+◌, ◌≡◌, refl, sym, ap, ap₂, subst, ◌∙◌, Bool, none, some, List, [], ◌∷◌, ◌++◌, arith, ◌==◌,
  if◌then◌else◌, Ptr, null, is_null, has-append, length-append, remove, Tid, Bool-cases, inl, inr,
}
use pcaio.QueueT
use pcaio.QueueT.{Queue}
use pcaio.QueueT.Fifo.{IsQueue, push-outside}
use pcaio.World.{World}
use pcaio.Task
use pcaio.Task.Life.{release, free_lem}
use pcaio.Worker.{running, set_task, settle}
use pcaio.Worker.Turn.{settle-ready, settle-ended}
use pcaio.Worker.Plan.{free-keeps, free-keeps_gather}
use pcaio.Worker.Team.{Phase, idle, runs, back, Slot, at, in_phase, held}
use pcaio.Worker.Team.Count.{
  tally-append, active-at, one_if, times, times-append, has_none, Distinct-times, times-remove,
  held-at, length-held-at,
}
use pcaio.Worker.Team.Going.{Parks-change, pending, Going, AllFit-split, AllFit-join, AllFit-change}

-- The task of a worker is alive, and in no other place.
pub once :
    {group : Ptr} {hooked : Ptr → Bool} {owner stack : Ptr → Ptr} {freed ts : List Ptr} {w : World}
    {xs ps zs es : List Ptr} (ls rs : List Slot) (i : Tid) (p : Phase) (t : Ptr)
    → Going group hooked owner stack freed ts w (ls ++ (at i p ∷ rs)) xs ps zs es
    → times t (in_phase p) ≡ 1
    → (times t zs ≡ 1)
      × (times t xs ≡ 0)
      × (times t (held ls) ≡ 0)
      × (times t (held rs) ≡ 0)
      × (times t ps ≡ 0)
once {zs} ls rs i p t g here =
    let most = Distinct-times t zs g.alive.distinct in
    let split = held-at t ls rs i p in
    (
      omega (arith, g.same t),
      omega (arith, g.same t),
      omega (arith, g.same t),
      omega (arith, g.same t),
      omega (arith, g.same t),
    )

-- The task gives way.
pub yields-Going :
    {group : Ptr} {hooked : Ptr → Bool} {owner stack : Ptr → Ptr} {freed ts : List Ptr} {w : World}
    {xs ps zs es : List Ptr} (ls rs : List Slot) (i : Tid) (t : Ptr)
    → Going group hooked owner stack freed ts w (ls ++ (at i (runs t) ∷ rs)) xs ps zs es
    → Going group hooked owner stack freed ts w (ls ++ (at i (back none t) ∷ rs)) xs ps zs es
yields-Going {w} {ps} ls rs i t g =
    let (before, here, behind) = AllFit-split w.flags ls rs i (runs t) g.fits in
    record {
      queue = g.queue;
      alive = g.alive;
      same =
          λ a. omega (arith, g.same a, held-at a ls rs i (runs t), held-at a ls rs i (back none t));
      all = g.all;
      ready = g.ready;
      fits = AllFit-join w.flags ls rs i (back none t) before here behind;
      hooks = g.hooks;
      parks =
          Parks-change w w _ _ _ ps
            (omega (
              arith,
              active-at w.terminated ls rs i (runs t),
              active-at w.terminated ls rs i (back none t),
            ))
            refl refl refl (λ a l. refl) g.parks;
      no_callback = g.no_callback;
      hooks_same = g.hooks_same;
      owners = g.owners;
      stacks = g.stacks;
      disposed = g.disposed;
      room =
          omega
            (arith, g.room, length-held-at ls rs i (runs t), length-held-at ls rs i (back none t));
    }

-- A task that gave way goes to the end of the queue.
pub requeues-Going :
    {group : Ptr} {hooked : Ptr → Bool} {owner stack : Ptr → Ptr} {freed ts : List Ptr} {w : World}
    {xs ps zs es : List Ptr} (ls rs : List Slot) (i : Tid) (err : ℕ) (t : Ptr)
    → Going group hooked owner stack freed ts w (ls ++ (at i (back none t) ∷ rs)) xs ps zs es
    → (v : World) × (settle t (set_task err i null w) ≡ running v)
      × Going group hooked owner stack freed ts v (ls ++ (at i idle ∷ rs)) (xs ++ (t ∷ [])) ps zs es
unfolding set_task
requeues-Going {w} {xs} {ps} ls rs i err t g =
    let w1 : World = set_task err i null w in
    let (before, here, behind) = AllFit-split w.flags ls rs i (back none t) g.fits in
    let (living, out, apart, apart', unparked) = once ls rs i (back none t) t g (ground arith) in
    let size = length-held-at ls rs i (back none t) in
    let (accepted, is) =
      push-outside t g.queue here.0 (has_none t xs out) (omega (arith, g.room)) in
    (
      record w1 { taskq = (QueueT.push t w.taskq).1 },
      settle-ready t w1 here.1.0 here.1.1 accepted,
      record {
        queue = is;
        alive = g.alive;
        same = λ a. omega (
          arith,
          g.same a,
          held-at a ls rs i (back none t),
          held-at a ls rs i idle,
          times-append a xs (t ∷ []),
        );
        all = g.all;
        ready = λ a h. elim (Bool-cases (a == t)) [
          | inl same ↦ (let e : a ≡ t = ground arith in rw e here.1)
          | inr other ↦ g.ready a (ground (arith, has-append a xs (t ∷ [])))
        ];
        fits = AllFit-join w.flags ls rs i idle before tt behind;
        hooks = g.hooks;
        parks =
            Parks-change w (record w1 { taskq = (QueueT.push t w.taskq).1 }) _ _ _ ps
              (omega (
                arith,
                tally-append w.terminated xs (t ∷ []),
                active-at w.terminated ls rs i (back none t),
                active-at w.terminated ls rs i idle,
              ))
              refl refl refl (λ a l. refl) g.parks;
        no_callback = g.no_callback;
        hooks_same = g.hooks_same;
        owners = g.owners;
        stacks = g.stacks;
        disposed = g.disposed;
        room = omega (arith, g.room, size, length-held-at ls rs i idle, length-append xs (t ∷ []));
      },
    )

release-snoc :
    (stack : Ptr → Ptr) (es : List Ptr) (t : Ptr) (freed : List Ptr)
    → release stack (es ++ (t ∷ [])) freed
      ≡ t ∷ (if is_null (stack t) then release stack es freed else stack t ∷ release stack es freed)
unfolding release
release-snoc stack [] t freed = refl
release-snoc stack (e ∷ es) t freed =
    release-snoc stack es t (e ∷ (if is_null (stack e) then freed else stack e ∷ freed))

-- A task that has ended is freed.
pub leaves-Going :
    {group : Ptr} {hooked : Ptr → Bool} {owner stack : Ptr → Ptr} {freed ts : List Ptr} {w : World}
    {xs ps zs es : List Ptr} (ls rs : List Slot) (i : Tid) (err code : ℕ) (t : Ptr)
    → Going group hooked owner stack freed ts w (ls ++ (at i (back (some code) t) ∷ rs)) xs ps zs es
    → (v : World) × (settle t (set_task err i null w) ≡ running v)
      × Going group hooked owner stack freed ts v
          (ls ++ (at i idle ∷ rs))
          xs
          ps
          (remove t zs)
          (es ++ (t ∷ []))
unfolding set_task
leaves-Going {stack} {freed} {w} {xs} {ps} {zs} {es} ls rs i err code t g =
    let w1 : World = set_task err i null w in
    let p = back (some code) t in
    let (before, here, behind) = AllFit-split w.flags ls rs i p g.fits in
    let (living, out, apart, apart', unparked) = once ls rs i p t g (ground arith) in
    let (alive, gone, same_queue, same_flags) = free_lem w1 t g.alive here.0 in
    let (stacks, hooks, callbacks) = free-keeps t w1 in
    let (gathers, counts, owners) = free-keeps_gather t w1 in
    let kept : (a : Ptr) → (Task.free t w1).flags a ≡ w.flags a =
      λ a. ap (λ (f : Ptr → ℕ). f a) same_flags in
    let removed : (a : Ptr) → times a (remove t zs) + one_if a t ≡ times a zs =
      λ a. times-remove a t zs (omega arith) in
    (
      Task.free t w1,
      settle-ended t w1 here.1,
      record {
        queue = subst (λ (q : Queue). IsQueue q xs) (sym same_queue) g.queue;
        alive = alive;
        same = λ a. omega (arith, g.same a, removed a, held-at a ls rs i p, held-at a ls rs i idle);
        all = λ a. omega (arith, g.all a, removed a, times-append a es (t ∷ []));
        ready = λ a h. rw (kept a) (g.ready a h);
        fits =
            AllFit-change w.flags (Task.free t w1).flags (ls ++ (at i idle ∷ rs)) (λ a l. kept a)
              (AllFit-join w.flags ls rs i idle before tt behind);
        hooks = λ a h.
            ap (λ (f : Ptr → Ptr). f a) gathers
            ∙ g.hooks a (sym (ap (λ (f : Ptr → Bool). f a) hooks) ∙ h);
        parks =
            Parks-change w (Task.free t w1) _ _ _ ps
              (omega (
                arith,
                active-at w.terminated ls rs i p,
                active-at w.terminated ls rs i idle,
                ap (λ (f : Ptr → Bool). pending f xs (ls ++ (at i idle ∷ rs))) hooks,
              ))
              counts owners hooks (λ a l. kept a) g.parks;
        no_callback = λ a. ap (λ (f : Ptr → Ptr). f a) callbacks ∙ g.no_callback a;
        hooks_same = hooks ∙ g.hooks_same;
        owners = owners ∙ g.owners;
        stacks = stacks ∙ g.stacks;
        disposed =
            gone
            ∙ ap₂ (λ (k : Ptr → Ptr) (l : List Ptr). t ∷ (if is_null (k t) then l else k t ∷ l))
                g.stacks g.disposed
            ∙ sym (release-snoc stack es t freed);
        room = omega (arith, g.room, length-held-at ls rs i p, length-held-at ls rs i idle);
      },
    )
