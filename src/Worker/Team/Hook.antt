-- ===== src/Worker/Team/Hook.antt =====
-- What the end of a task does to the tasks that wait: the hook of pcaio/gather.c among several workers.
use pcaio.Prelude.{
  ℕ, zero, suc, ◌^◌, ◌<◌, ◌≡◌, refl, sym, ap, subst, ◌∙◌, inl, inr, Bool, true, false, some, List,
  [], ◌∷◌, ◌++◌, arith, Ptr, update, Tid, Bool-cases,
}
use pcaio.QueueT.{Queue}
use pcaio.QueueT.Fifo.{IsQueue}
use pcaio.World.{World}
use pcaio.Gather.Count.{taskterminated-more}
use pcaio.Worker.Plan.{came_back}
use pcaio.Worker.Team.{runs, back, Slot, at}
use pcaio.Worker.Team.Count.{active-at}
use pcaio.Worker.Team.Going.{Parks-change, pending, Going}
use pcaio.Worker.Team.Moves.{once}
use pcaio.Worker.Team.Ends.{marked, ends_alone, ends_hooked, Kept, marked-Marked, ended-Going}
use pcaio.Worker.Team.Wakes.{Left, same_flags_of, weight, still_ready, last-Going}

module _ {group : Ptr} {hooked : Ptr → Bool} {owner stack : Ptr → Ptr} {freed ts : List Ptr}
    {w : World} {xs zs es : List Ptr} (ls rs : List Slot) (i : Tid) (code : ℕ) (t : Ptr) where
  unhooked-Going :
      {ps : List Ptr}
      → Going group hooked owner stack freed ts w (ls ++ (at i (runs t) ∷ rs)) xs ps zs es
      → w.terminated t ≡ false
      → Left group hooked owner stack freed ts
          (came_back (some code) t w)
          (ls ++ (at i (back (some code) t) ∷ rs))
          xs
          ps
          zs
          es
  unhooked-Going {ps} g hook =
      let v : World = marked t code w in
      let m = marked-Marked t code w in
      let (living, out, apart, apart', unparked) = once ls rs i (runs t) t g (ground arith) in
      let slots = ls ++ (at i (back (some code) t) ∷ rs) in
      let same : pending w.terminated xs (ls ++ (at i (runs t) ∷ rs))
          ≡ pending v.terminated xs slots =
        omega (
          arith,
          active-at w.terminated ls rs i (runs t),
          active-at w.terminated ls rs i (back (some code) t),
          ap weight hook,
          ap (λ (f : Ptr → Bool). pending f xs slots) m.kept.terminated,
        ) in
      let ended =
        ended-Going ls rs i code t v xs ps g m.kept
          (subst (λ (q : Queue). IsQueue q xs) (sym m.taskq) g.queue) (λ a. refl) refl
          (still_ready ls rs i code t g m.kept)
          (Parks-change w v group _ _ ps same m.gather_count m.kept.gather_task m.kept.terminated
            (same_flags_of ps m.kept unparked) g.parks) in
      (
        xs,
        ps,
        subst (λ (u : World). Going group hooked owner stack freed ts u slots xs ps zs es)
            (sym (ends_alone t code w hook (g.no_callback t))) ended,
        λ need. refl,
      )

  -- Others of the group are left.
  more-Going :
      (p n : ℕ)
      → Going group hooked owner stack freed ts w (ls ++ (at i (runs t) ∷ rs)) xs (p ∷ []) zs es
      → w.terminated t ≡ true
      → pending w.terminated xs (ls ++ (at i (back (some code) t) ∷ rs)) ≡ suc n
      → Left group hooked owner stack freed ts
          (came_back (some code) t w)
          (ls ++ (at i (back (some code) t) ∷ rs))
          xs
          (p ∷ [])
          zs
          es
  more-Going p n g hook some_left =
      let m = marked-Marked t code w in
      let u : World = marked t code w in
      let v : World = record u { gather_count = update u.gather_count group (suc n) } in
      let (living, out, apart, apart', unparked) = once ls rs i (runs t) t g (ground arith) in
      let slots = ls ++ (at i (back (some code) t) ∷ rs) in
      let before : pending w.terminated xs (ls ++ (at i (runs t) ∷ rs)) ≡ suc (suc n) = omega (
        arith,
        some_left,
        active-at w.terminated ls rs i (runs t),
        active-at w.terminated ls rs i (back (some code) t),
        ap weight hook,
      ) in
      let k : Kept t w v = record {
        tasks = m.kept.tasks;
        freed = m.kept.freed;
        stack = m.kept.stack;
        terminated = m.kept.terminated;
        callback = m.kept.callback;
        gather = m.kept.gather;
        gather_task = m.kept.gather_task;
        flags = m.kept.flags;
      } in
      let now : pending v.terminated xs slots ≡ suc n =
        ap (λ (f : Ptr → Bool). pending f xs slots) m.kept.terminated ∙ some_left in
      let steps : came_back (some code) t w ≡ v =
        ends_hooked t code w hook
        ∙ taskterminated-more t group u n
            (ap (λ (f : Ptr → Ptr). f t) m.kept.gather ∙ g.hooks t hook)
            (ap (λ (f : Ptr → ℕ). f group) m.gather_count ∙ g.parks.1 ∙ before)
            (subst (λ c. c < 2 ^ 16) before g.parks.2) in
      let ended =
        ended-Going ls rs i code t v xs (p ∷ []) g k
          (subst (λ (q : Queue). IsQueue q xs) (sym m.taskq) g.queue) (λ a. refl) refl
          (still_ready ls rs i code t g k)
          (
            omega (arith, now),
            (let counted : v.gather_count group ≡ suc n = ground arith in counted ∙ sym now),
            omega (arith, now, before, g.parks.2),
            ap (λ (f : Ptr → Ptr). f group) m.kept.gather_task ∙ g.parks.3,
            g.parks.4,
            ap (λ (f : Ptr → Bool). f p) m.kept.terminated ∙ g.parks.5,
            rw (same_flags_of (p ∷ []) k unparked p (ground arith)) g.parks.6,
          ) in
      (
        xs,
        p ∷ [],
        subst (λ (o : World). Going group hooked owner stack freed ts o slots xs (p ∷ []) zs es)
            (sym steps) ended,
        λ need. refl,
      )

  hooked-Going :
      (ps : List Ptr) (n : ℕ)
      → Going group hooked owner stack freed ts w (ls ++ (at i (runs t) ∷ rs)) xs ps zs es
      → w.terminated t ≡ true
      → pending w.terminated xs (ls ++ (at i (back (some code) t) ∷ rs)) ≡ n
      → Left group hooked owner stack freed ts
          (came_back (some code) t w)
          (ls ++ (at i (back (some code) t) ∷ rs))
          xs
          ps
          zs
          es
  hooked-Going [] n g hook left = absurd (
      let wrong = active-at w.terminated ls rs i (runs t) in
      let one = ap weight hook in omega (arith, g.parks))
  hooked-Going (p ∷ []) zero g hook left = last-Going ls rs i code t p g hook left
  hooked-Going (p ∷ []) (suc n) g hook left = more-Going p n g hook left
  hooked-Going (p ∷ q ∷ ps) n g hook left = absurd g.parks

  -- The task of a worker ends.
  pub ends-Going :
      {ps : List Ptr}
      → Going group hooked owner stack freed ts w (ls ++ (at i (runs t) ∷ rs)) xs ps zs es
      → Left group hooked owner stack freed ts
          (came_back (some code) t w)
          (ls ++ (at i (back (some code) t) ∷ rs))
          xs
          ps
          zs
          es
  ends-Going {ps} g = elim (Bool-cases (w.terminated t)) [
    | inl hook ↦ hooked-Going ps _ g hook refl
    | inr hook ↦ unhooked-Going g hook
  ]
