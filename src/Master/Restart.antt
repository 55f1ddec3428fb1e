-- ===== src/Master/Restart.antt =====
-- What `master_deinit` of pcaio/master.c leaves, and a `master_init` behind it.
use pcaio.Prelude.{
  Bool-cases, inl, inr, ltb, ℕ, zero, suc, ◌+◌, ◌≡◌, refl, sym, ap, subst, [], Ptr, null, Status,
  done, Tid,
}
use pcaio.QueueT
use pcaio.QueueT.Fifo.{IsQueue}
use pcaio.ListT
use pcaio.ListT.Refine.{IsList}
use pcaio.Threadlocal
use pcaio.Threadpool
use pcaio.Master.{State, Callbacks, modules_max, address}
use pcaio.Master.Setup.{Setup, deinit_lists, init, dtor_from, zeroed, deinit}
use pcaio.Master.Reset.{Harmless, Granted, Ready, started-Ready, init-started}

dtor_from-Harmless :
    {M : Type 0} (cb : Callbacks M) (fuel i : ℕ) (s : State M)
    → Harmless cb
    → (v : M) × (dtor_from cb fuel i s ≡ record s { memory = v })
unfolding dtor_from
dtor_from-Harmless cb zero i s h = (s.memory, refl)
dtor_from-Harmless cb (suc fuel) i s h =
    let (v, stopped) = h.dtors (s.modules i) s in
    let (w, rest) = dtor_from-Harmless cb fuel (i + 1) (record s { memory = v }) h in
    let (w', rest') = dtor_from-Harmless cb fuel (i + 1) s h in
    elim (Bool-cases (ltb i s.modulescount)) [
      | inl more ↦ elim (Bool-cases (cb.has_dtor (s.modules i))) [
        | inl has ↦ (w, rw (dtor_from, more, has, stopped) rest)
        | inr lacks ↦ (w', rw (dtor_from, more, lacks) rest')
      ]
      | inr end ↦ (s.memory, rw end refl)
    ]

-- The state in which the modules' destructors leave `master_deinit`, `v` what they keep.
abbrev pub closing : {M : Type 0} → M → State M → State M
closing v s =
    let w = record s.world {
      task_key = Threadlocal.delete s.world.task_key;
      context_key = Threadlocal.delete s.world.context_key;
    } in
    record s { pool = (Threadpool.deinit address s.pool).1; world = deinit_lists w; memory = v }

pub deinit-zeroed :
    {M : Type 0} (cb : Callbacks M) (s : State M)
    → Harmless cb
    → (v : M) × (deinit cb s ≡ (done, zeroed (closing v s)))
unfolding deinit
deinit-zeroed {M} cb s h =
    let (v, stopped) = dtor_from-Harmless cb modules_max 0 (closing s.memory s) h in
    (v, ap (λ (t : State M). (done, zeroed t)) stopped)

pub zeroed-idle :
    {M : Type 0} (s : State M) → ((zeroed s).workers ≡ 0) × ((zeroed s).modulescount ≡ 0)
unfolding zeroed
zeroed-idle s = (refl, refl)

zeroed-lists :
    {M : Type 0} (v : M) (s : State M)
    → IsList s.world.tasks []
    → IsQueue s.world.taskq []
    → IsList (zeroed (closing v s)).world.tasks []
      × ((a : Ptr) → (zeroed (closing v s)).world.taskq.next a ≡ null)
unfolding zeroed deinit_lists ListT.deinit QueueT.deinit
zeroed-lists v s l q = (
  record {
    chain = refl;
    tail_last = refl;
    counted = refl;
    small = l.small;
    distinct = tt;
    loose = l.loose;
  },
  λ a. q.loose a refl,
)

-- With no task alive and none in the queue, and modules that start and stop, `master_deinit`
-- leaves a state in which `master_init` succeeds if the system grants what it asks for: the
-- library is ready to run, with no task and no module.
pub init-deinit :
    {M : Type 0} (cb : Callbacks M) (sys : Setup) (threads : ℕ → Tid) (workers : ℕ) (s : State M)
    → Harmless cb
    → Granted sys threads
    → IsList s.world.tasks []
    → IsQueue s.world.taskq []
    → let again = init cb sys workers (deinit cb s).1 in
      (again.0 ≡ done) × Ready workers [] again.1 × (again.1.modulescount ≡ 0)
init-deinit {M} cb sys threads workers s h g l q =
    let (v, stopped) = deinit-zeroed cb s h in
    let (alive, unlinked) = zeroed-lists v s l q in
    let (idle, none_left) = zeroed-idle (closing v s) in
    let (w, same) = init-started cb sys threads workers (zeroed (closing v s)) h g idle in
    subst
      (λ (o : Status × State M).
        ((init cb sys workers o.1).0 ≡ done)
        × Ready workers [] (init cb sys workers o.1).1
        × ((init cb sys workers o.1).1.modulescount ≡ 0))
      (sym stopped)
      (subst
        (λ (o : Status × State M). (o.0 ≡ done) × Ready workers [] o.1 × (o.1.modulescount ≡ 0))
        (sym same)
        (refl, started-Ready threads workers w (zeroed (closing v s)) alive unlinked, none_left))
