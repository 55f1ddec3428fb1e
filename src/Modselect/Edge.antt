-- ===== src/Modselect/Edge.antt =====
-- The largest descriptor that `pcaio_modselect_monitorA` of pcaio/modselect.c accepts.
use pcaio.Prelude.{
  ℕ, ◌+◌, ◌^◌, ◌<◌, ◌≡◌, refl, sym, ap, subst, ◌∙◌, ◌≢◌, inl, inr, false, ◌||◌, Option, none, some,
  List, [], ◌∷◌, ◌++◌, arith, ltb, ◌==◌, Ptr, null, Status, done, Tid, length,
}
use pcaio.Relax.{self}
use pcaio.RingT.Refine.{IsRing}
use pcaio.Modio.{is_negative}
use pcaio.Master.{TickStatus}
use pcaio.Modselect.{Select, FdSets, SelectCall, tick, monitor}
use pcaio.Modselect.Limit.{Option-cases, tick-same, tick-maxfileno}
use pcaio.Modselect.Wait.{parked, told, monitor-waits}

-- `FD_SETSIZE`: descriptors from here on have no place in an `fd_set`.
abbrev pub fd_setsize : ℕ
fd_setsize = 1024

-- What is ready on two occasions, the same for the descriptors below `nfds`.
abbrev pub SameBelow : (nfds : ℕ) → (ready ready' : FdSets) → Type 0
SameBelow nfds ready ready' =
    (fd : ℕ)
    → fd < nfds
    → (ready.rfds fd ≡ ready'.rfds fd)
      × (ready.wfds fd ≡ ready'.wfds fd)
      × (ready.efds fd ≡ ready'.efds fd)

-- `select`, by what is ready while it is called, examines the descriptors below `nfds`: what becomes of
-- the others makes no difference to its answer.
abbrev pub Examines : (FdSets → SelectCall) → Type 0
Examines select =
    (ready ready' : FdSets) (nfds : ℕ)
    → SameBelow nfds ready ready'
    → (sets : FdSets) (sec usec : ℕ)
    → select ready nfds sets sec usec ≡ select ready' nfds sets sec usec

-- One tick after the other, each with what is ready and its timeout; what each returns, and the state
-- behind the last, none if the ring's array is read out of its bounds.
unfoldable pub ticks :
    (FdSets → SelectCall) → List (FdSets × ℕ) → Select → Option (List TickStatus × Select)
ticks select [] s = some ([], s)
ticks select ((ready, timeout_us) ∷ later) s = elim (tick (select ready) timeout_us s) [
  | none ↦ none
  | some (status, s1) ↦ elim (ticks select later s1) [
    | none ↦ none
    | some (rest, s2) ↦ some (status ∷ rest, s2)
  ]
]

-- The same timeouts, and the same is ready below `nfds`.
abbrev pub AllSameBelow : (nfds : ℕ) → (calls calls' : List (FdSets × ℕ)) → Type 0
AllSameBelow nfds [] [] = Unit {0}
AllSameBelow nfds [] (c' ∷ cs') = ⊥
AllSameBelow nfds (c ∷ cs) [] = ⊥
AllSameBelow nfds (c ∷ cs) (c' ∷ cs') =
    SameBelow nfds c.0 c'.0 × (c.1 ≡ c'.1) × AllSameBelow nfds cs cs'

ticks-same :
    (select : FdSets → SelectCall) (calls calls' : List (FdSets × ℕ)) (n : ℕ) (s : Select)
    → Examines select
    → s.maxfileno ≡ n
    → AllSameBelow n calls calls'
    → ticks select calls s ≡ ticks select calls' s
unfolding ticks
ticks-same select [] [] n s examines limit same = refl
ticks-same select [] (c' ∷ cs') n s examines limit same = absurd same
ticks-same select (c ∷ cs) [] n s examines limit same = absurd same
ticks-same select ((ready, time) ∷ cs) ((ready', time') ∷ cs') n s examines limit (agree, e, rest) =
    let below : SameBelow s.maxfileno ready ready' =
      subst (λ k. SameBelow k ready ready') (sym limit) agree in
    let one : tick (select ready) time s ≡ tick (select ready') time' s =
      tick-same (select ready) (select ready') time s (examines ready ready' s.maxfileno below)
      ∙ ap (λ k. tick (select ready') k s) e in
    elim (Option-cases (tick (select ready') time' s)) [
      | inl stuck ↦ rw (ticks, one, stuck) refl
      | inr ((status, s1), goes) ↦
          let limit1 = tick-maxfileno (select ready') time' s status s1 goes in
          let later = ticks-same select cs cs' n s1 examines (limit1 ∙ limit) rest in
          rw (ticks, one, goes, later) refl
    ]

-- The limit of the module is no negative `int`, and its sets have a place for it. A task waits for the
-- descriptor `maxfileno`, when there is room in the ring. `pcaio_modselect_monitorA` accepts it: its
-- event stands behind those that wait, the task leaves, and the call goes on when it runs again. But
-- `select` examines only the descriptors below `maxfileno`; so what becomes of this one makes no
-- difference: however many ticks come, and whatever is ready in them, each returns the same, and leaves
-- the same queue, the same ring and the same answers to the tasks, whether this descriptor is
-- ready then or not.
pub edge_unseen :
    (thread : Tid) (e : Ptr) (swap : Select → Status × Select) (k events : ℕ) (s : Select)
    (xs : List Ptr) (select : FdSets → SelectCall) (calls calls' : List (FdSets × ℕ))
    → IsRing k s.ring xs
    → length xs + 1 < 2 ^ k
    → is_negative s.maxfileno ≡ false
    → s.maxfileno < fd_setsize
    → events ≢ 0
    → self thread s.world ≢ null
    → s.world.context_key.value thread ≢ null
    → (swap (parked thread e s.maxfileno events s)).0 ≡ done
    → Examines select
    → AllSameBelow s.maxfileno calls calls'
    → let left = parked thread e s.maxfileno events s in
      IsRing k left.ring (xs ++ (e ∷ []))
      × (left.io.fd e ≡ s.maxfileno)
      × (monitor thread e swap s.maxfileno events s ≡ told e (swap left).1)
      × (ticks select calls left ≡ ticks select calls' left)
edge_unseen thread e swap k events s xs select calls calls' is room small fits wanted task ctx back
      examines same =
    let left = parked thread e s.maxfileno events s in
    let accepted : (is_negative s.maxfileno || ltb s.maxfileno s.maxfileno || events == 0) ≡ false =
      ground arith in
    let (is1, goes) =
      monitor-waits thread e swap k s.maxfileno events s xs is room accepted task ctx back in
    (is1, ground arith, goes, ticks-same select calls calls' s.maxfileno left examines refl same)
