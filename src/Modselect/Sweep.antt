-- ===== src/Modselect/Sweep.antt =====
-- The second loop of `_tick` in pcaio/modselect.c: an event is put back into the ring, or its task
-- is queued.
use pcaio.Prelude.{
  ℕ, ◌+◌, ◌^◌, ◌<◌, ◌≡◌, refl, ap, subst, ◌∙◌, ◌≢◌, inl, inr, Bool, true, false, not, ◌&&◌, List,
  [], ◌∷◌, ◌++◌, map, append_assoc, append-nil, arith, ◌==◌, if◌then◌else◌, Ptr, null, is_null,
  Status, done, length, sizes, has, Apart-snoc, filter, Bool-cases,
}
use pcaio.World.{World, schedule, enqueue}
use pcaio.QueueT
use pcaio.QueueT.Fifo.{IsQueue, push-outside}
use pcaio.RingT
use pcaio.RingT.{Ring}
use pcaio.RingT.Refine
use pcaio.RingT.Refine.{IsRing, push-enqueue}
use pcaio.IoEvent.{IoEvents, set_events, NewTasks}
use pcaio.Master.{TickStatus}
use pcaio.ListT.{DList}
use pcaio.Modselect.{Select, FdSets, ready_events, settle_one, settle_all}

-- Whether something came for an event.
abbrev pub is_ready : (broken : Bool) → FdSets → IoEvents → Ptr → Bool
is_ready broken sets io e = not (ready_events broken sets (io.fd e) == 0)

abbrev pub is_idle : (broken : Bool) → FdSets → IoEvents → Ptr → Bool
is_idle broken sets io e = ready_events broken sets (io.fd e) == 0

-- What the second loop makes of the events `es`: those for which nothing came go behind the events
-- `waiting` of the ring, the tasks of the others behind the tasks `queued`, in order, and each of
-- these events is told what came.
pub record Swept (k : ℕ) (ret : TickStatus) (broken : Bool) (sets : FdSets)
    (es waiting queued : List Ptr) (io : IoEvents) (tasks : DList) (out : TickStatus × Select)
    : Type 0 where
  pub status : out.0 ≡ ret
  pub ring : IsRing k out.1.ring (waiting ++ filter (is_idle broken sets io) es)
  pub queue :
      IsQueue out.1.world.taskq (queued ++ map io.task (filter (is_ready broken sets io) es))
  pub told :
      (e : Ptr)
      → out.1.io.events e ≡ (
          if has e es && is_ready broken sets io e
          then ready_events broken sets (io.fd e)
          else io.events e)
  pub same_tasks : out.1.world.tasks ≡ tasks

pub settle_idle :
    (broken : Bool) (sets : FdSets) (e : Ptr) (s : Select)
    → is_idle broken sets s.io e ≡ true
    → (RingT.push e s.ring).0 ≡ done
    → settle_one broken sets e s ≡ (done, record s { ring = (RingT.push e s.ring).1 })
unfolding settle_one
settle_idle broken sets e s idle pushed = rw (settle_one, idle, pushed) refl

settle_ready :
    (broken : Bool) (sets : FdSets) (e : Ptr) (s : Select)
    → is_idle broken sets s.io e ≡ false
    → s.io.task e ≢ null
    → settle_one broken sets e s ≡ (
      done,
      record s {
        io = set_events e (ready_events broken sets (s.io.fd e)) s.io;
        world = record s.world { taskq = (QueueT.push (s.io.task e) s.world.taskq).1 };
      },
    )
unfolding settle_one schedule enqueue
settle_ready broken sets e s ready task =
    let given : is_null (s.io.task e) ≡ false = ground arith in rw (settle_one, ready, given) refl

pub settle_all-cons :
    (ret : TickStatus) (broken : Bool) (sets : FdSets) (e : Ptr) (es : List Ptr) (s s1 : Select)
    → settle_one broken sets e s ≡ (done, s1)
    → settle_all ret broken sets (e ∷ es) s ≡ settle_all ret broken sets es s1
unfolding settle_all
settle_all-cons ret broken sets e es s s1 one =
    let passed : (settle_one broken sets e s).0 ≡ done = ap (λ (o : Status × Select). o.0) one in
    rw (settle_all, passed) (ap (λ (o : Status × Select). settle_all ret broken sets es o.1) one)

-- An event for which nothing came.
Swept-idle :
    (k : ℕ) (ret : TickStatus) (broken : Bool) (sets : FdSets) (e : Ptr)
    (es waiting queued : List Ptr) (s : Select) (ring1 : Ring) (out : TickStatus × Select)
    → is_idle broken sets s.io e ≡ true
    → Swept k ret broken sets es (waiting ++ (e ∷ [])) queued s.io s.world.tasks out
    → Swept k ret broken sets (e ∷ es) waiting queued s.io s.world.tasks out
Swept-idle k ret broken sets e es waiting queued s ring1 out idle rest = record {
  status = rest.status;
  ring = rw idle (
      subst (IsRing k out.1.ring)
        (append_assoc waiting (e ∷ []) (filter (is_idle broken sets s.io) es)) rest.ring);
  queue = rw idle rest.queue;
  told = λ a. rest.told a ∙ ground arith;
  same_tasks = rest.same_tasks;
}

-- An event for which something came.
Swept-ready :
    (k : ℕ) (ret : TickStatus) (broken : Bool) (sets : FdSets) (e : Ptr)
    (es waiting queued : List Ptr) (s : Select) (w1 : World) (out : TickStatus × Select)
    → is_idle broken sets s.io e ≡ false
    → w1.tasks ≡ s.world.tasks
    → let s1 = record s {
      io = set_events e (ready_events broken sets (s.io.fd e)) s.io;
      world = w1;
    } in
      Swept k ret broken sets es waiting (queued ++ (s.io.task e ∷ [])) s1.io w1.tasks out
      → Swept k ret broken sets (e ∷ es) waiting queued s.io s.world.tasks out
Swept-ready k ret broken sets e es waiting queued s w1 out ready same rest = record {
  status = rest.status;
  ring = rw ready rest.ring;
  queue = rw ready (
      subst (IsQueue out.1.world.taskq)
        (append_assoc queued (s.io.task e ∷ [])
          (map s.io.task (filter (is_ready broken sets s.io) es)))
        rest.queue);
  told = λ a. rest.told a ∙ ground arith;
  same_tasks = rest.same_tasks ∙ same;
}

pub pushes :
    (k : ℕ) (e : Ptr) (r : Ring) (xs : List Ptr)
    → IsRing k r xs
    → length xs + 1 < 2 ^ k
    → ((RingT.push e r).0 ≡ done) × IsRing k (RingT.push e r).1 (xs ++ (e ∷ []))
unfolding Refine.enqueue
pushes k e r xs is room =
    let not_full : (length xs + 1 == 2 ^ k) ≡ false = ground arith in
    let (status, holds) = push-enqueue e is in (rw not_full at status, rw not_full at holds)

pub settle_all-Swept :
    (k : ℕ) (ret : TickStatus) (broken : Bool) (sets : FdSets) (es waiting queued : List Ptr)
    (s : Select)
    → IsRing k s.ring waiting
    → length waiting + length es < 2 ^ k
    → IsQueue s.world.taskq queued
    → length queued + length es < 2 ^ 64
    → NewTasks s.io es queued
    → Swept k ret broken sets es waiting queued s.io s.world.tasks (settle_all ret broken sets es s)
unfolding settle_all
settle_all-Swept k ret broken sets [] waiting queued s r room q room' new = record {
  status = refl;
  ring = rw append-nil r;
  queue = rw append-nil q;
  told = λ e. refl;
  same_tasks = refl;
}
settle_all-Swept k ret broken sets (e ∷ es) waiting queued s r room q room' new =
    elim (Bool-cases (is_idle broken sets s.io e)) [
      | inl idle ↦
          let (pushed, r1) = pushes k e s.ring waiting r (omega arith) in
          let ring1 = (RingT.push e s.ring).1 in
          rw
            (settle_all-cons ret broken sets e es s (record s { ring = ring1 })
              (settle_idle broken sets e s idle pushed))
            (Swept-idle k ret broken sets e es waiting queued s ring1 _ idle (
              settle_all-Swept k ret broken sets es (waiting ++ (e ∷ [])) queued
                (record s { ring = ring1 }) r1 (grind sizes) q (omega arith)
                ((new.0).1, (new.1).1, (new.2).1)))
      | inr ready ↦
          let t = s.io.task e in
          let (_, q1) = push-outside t q (new.0).0 (new.2).0 (omega arith) in
          let w1 = record s.world { taskq = (QueueT.push t s.world.taskq).1 } in
          let s1 = record s {
            io = set_events e (ready_events broken sets (s.io.fd e)) s.io;
            world = w1;
          } in
          rw
            (settle_all-cons ret broken sets e es s s1
              (settle_ready broken sets e s ready (new.0).0))
            (Swept-ready k ret broken sets e es waiting queued s w1 _ ready refl (
              settle_all-Swept k ret broken sets es waiting (queued ++ (t ∷ [])) s1 r (omega arith)
                q1 (grind sizes)
                ((new.0).1, (new.1).1, Apart-snoc t queued (map s.io.task es) (new.2).1 (new.1).0)))
    ]
