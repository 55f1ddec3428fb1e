-- ===== src/Modselect/Tick.antt =====
-- `_tick` of pcaio/modselect.c, when `select` succeeds and when it fails.
use pcaio.Prelude.{
  ℕ, ◌+◌, ◌^◌, ◌<◌, ◌≡◌, refl, ap, subst, ◌∙◌, true, false, ◌/◌, ◌%◌, none, some, List, [], ◌∷◌,
  ◌++◌, map, append-nil, arith, if◌then◌else◌, Ptr, length, length-append, has, filter,
}
use pcaio.QueueT.Fifo.{IsQueue}
use pcaio.RingT
use pcaio.RingT.{Ring}
use pcaio.RingT.Refine.{IsRing, used-length}
use pcaio.IoEvent.{NewTasks, IoEvents}
use pcaio.Modio.{ioerr}
use pcaio.Master.{TickStatus, pms_panic, pms_again}
use pcaio.Modselect.Collect.{AllWaiting, add_all, Fits, collect-takes}
use pcaio.Modselect.Sweep.{is_ready, is_idle, Swept, settle_all-Swept}
use pcaio.Modselect.{
  Select, FdSets, no_fds, collected, collect, ready_events, settle_all, SelectCall, ask, tick,
}

pub tick-ask :
    (select : SelectCall) (timeout_us : ℕ) (s : Select) (es : List Ptr) (sets : FdSets) (r : Ring)
    → RingT.is_empty s.ring ≡ false
    → collect s.maxfileno s.io no_fds s.ring ≡ collected es sets r
    → tick select timeout_us s ≡ some (ask select timeout_us es sets (record s { ring = r }))
unfolding tick
tick-ask select timeout_us s es sets r some_event taken = rw (tick, some_event, taken) refl

-- What a tick is given: the events `e ∷ ys ++ zs` wait, `swap` has room for `e ∷ ys`, and their
-- tasks are new to the queue, which holds `queued`.
pub record Waiting (k : ℕ) (s : Select) (e : Ptr) (ys zs queued : List Ptr) : Type 0 where
  pub ring : IsRing k s.ring (e ∷ ys ++ zs)
  pub wanted : AllWaiting s.io (e ∷ ys)
  pub fits : Fits s.maxfileno (e ∷ ys) zs
  pub queue : IsQueue s.world.taskq queued
  pub room : length queued + length (e ∷ ys) < 2 ^ 64
  pub new_tasks : NewTasks s.io (e ∷ ys) queued

-- What the first loop hands to the rest of the tick.
taken :
    (k : ℕ) (s : Select) (e : Ptr) (ys zs queued : List Ptr)
    → Waiting k s e ys zs queued
    → (r : Ring) × (collect s.maxfileno s.io no_fds s.ring
        ≡ collected (e ∷ ys) (add_all s.io (e ∷ ys) no_fds) r)
      × IsRing k r zs
      × (RingT.is_empty s.ring ≡ false)
unfolding RingT.is_empty
taken k s e ys zs queued w =
    let (r, same, left) =
      collect-takes s.maxfileno (e ∷ ys) zs k s.io no_fds s.ring w.ring w.wanted w.fits in
    (r, same, left, ground (arith, used-length w.ring))

left_room :
    {k : ℕ} {s : Select} {e : Ptr} {ys zs queued : List Ptr}
    → Waiting k s e ys zs queued
    → length zs + length (e ∷ ys) < 2 ^ k
left_room {ys} {zs} w = omega (arith, w.ring.room, length-append ys zs)

-- A tick on events that wait for something, whose tasks are new to the queue, and whose `select`
-- succeeds, loses no event: of those that `swap` has room for, each for which something came is
-- told what came and its task is queued, and each other goes back into the ring behind those that
-- were left there. The tick asks to be called again.
pub tick-Swept :
    (select : SelectCall) (timeout_us k : ℕ) (s : Select) (e : Ptr) (ys zs queued : List Ptr)
    (sets : FdSets)
    → Waiting k s e ys zs queued
    → select s.maxfileno
        (add_all s.io (e ∷ ys) no_fds)
        (timeout_us / 1000000)
        (timeout_us % 1000000)
      ≡ some sets
    → (out : TickStatus × Select) × (tick select timeout_us s ≡ some out)
      × Swept k pms_again false sets (e ∷ ys) zs queued s.io s.world.tasks out
unfolding ask
tick-Swept select timeout_us k s e ys zs queued sets w answers =
    let (r, same, left, some_event) = taken k s e ys zs queued w in
    let s1 = record s { ring = r } in
    (
      settle_all pms_again false sets (e ∷ ys) s1,
      tick-ask select timeout_us s (e ∷ ys) (add_all s.io (e ∷ ys) no_fds) r some_event same
          ∙ rw (ask, answers) refl,
      settle_all-Swept k pms_again false sets (e ∷ ys) zs queued s1 left (left_room w) w.queue
          w.room w.new_tasks,
    )

-- The sets after a `select` that failed, with those for reading and writing cleared.
abbrev pub broken_sets : FdSets → FdSets
broken_sets sets = record sets { rfds = λ _. false; wfds = λ _. false }

filter-broken :
    (sets : FdSets) (io : IoEvents) (es : List Ptr)
    → (filter (is_ready true (broken_sets sets) io) es ≡ es)
      × (filter (is_idle true (broken_sets sets) io) es ≡ [])
unfolding ready_events
filter-broken sets io [] = (refl, refl)
filter-broken sets io (e ∷ es) =
    let (all, nothing) = filter-broken sets io es in (ap (λ (l : List Ptr). e ∷ l) all, nothing)

-- What a tick leaves whose `select` failed.
pub record Broken (k : ℕ) (es zs queued : List Ptr) (io : IoEvents) (out : TickStatus × Select)
    : Type 0 where
  pub status : out.0 ≡ pms_panic
  pub ring : IsRing k out.1.ring zs
  pub queue : IsQueue out.1.world.taskq (queued ++ map io.task es)
  pub told : (e : Ptr) → out.1.io.events e ≡ (if has e es then ioerr else io.events e)

Swept-Broken :
    (k : ℕ) (sets : FdSets) (es zs queued : List Ptr) (s : Select) (out : TickStatus × Select)
    → Swept k pms_panic true (broken_sets sets) es zs queued s.io s.world.tasks out
    → Broken k es zs queued s.io out
unfolding ready_events
Swept-Broken k sets es zs queued s out w =
    let (all, nothing) = filter-broken sets s.io es in
    record {
      status = w.status;
      ring = subst (IsRing k out.1.ring) (ap (λ l. zs ++ l) nothing ∙ append-nil zs) w.ring;
      queue = subst (λ l. IsQueue out.1.world.taskq (queued ++ map s.io.task l)) all w.queue;
      told = λ e. ground (arith, w.told e);
    }

-- A tick on events that wait for something, whose tasks are new to the queue, and whose `select`
-- fails, queues the tasks of all events that it has taken, tells each that an error came, and
-- reports a panic; no event that it has taken stays in the ring.
pub tick-Broken :
    (select : SelectCall) (timeout_us k : ℕ) (s : Select) (e : Ptr) (ys zs queued : List Ptr)
    → Waiting k s e ys zs queued
    → select s.maxfileno
        (add_all s.io (e ∷ ys) no_fds)
        (timeout_us / 1000000)
        (timeout_us % 1000000)
      ≡ none
    → (out : TickStatus × Select) × (tick select timeout_us s ≡ some out)
      × Broken k (e ∷ ys) zs queued s.io out
unfolding ask
tick-Broken select timeout_us k s e ys zs queued w answers =
    let (r, same, left, some_event) = taken k s e ys zs queued w in
    let s1 = record s { ring = r } in
    let asked = add_all s.io (e ∷ ys) no_fds in
    (
      settle_all pms_panic true (broken_sets asked) (e ∷ ys) s1,
      tick-ask select timeout_us s (e ∷ ys) asked r some_event same ∙ rw (ask, answers) refl,
      Swept-Broken k asked (e ∷ ys) zs queued s
          (settle_all pms_panic true (broken_sets asked) (e ∷ ys) s1)
          (settle_all-Swept k pms_panic true (broken_sets asked) (e ∷ ys) zs queued s1 left
            (left_room w) w.queue w.room w.new_tasks),
    )
