-- ===== src/Modselect/Wait.antt =====
-- `pcaio_modselect_monitorA` of pcaio/modselect.c: how a task waits for a descriptor.
use pcaio.Prelude.{
  ℕ, ◌+◌, ◌^◌, ◌<◌, ◌≡◌, refl, ap, ◌∙◌, ◌≢◌, true, false, ◌||◌, List, [], ◌∷◌, ◌++◌, arith, ltb,
  ◌==◌, if◌then◌else◌, Ptr, null, is_null, Status, done, failed, Tid, length,
}
use pcaio.World.{task_noschedule}
use pcaio.Relax.{self, relax_in, relax_in-swap, add_flags}
use pcaio.RingT
use pcaio.RingT.{Ring}
use pcaio.RingT.Refine.{IsRing}
use pcaio.IoEvent
use pcaio.IoEvent.{IoEvents}
use pcaio.Modio.{ioerr, is_negative}
use pcaio.Modselect.{Select, wants, monitor}
use pcaio.Modselect.Sweep.{pushes}

-- The state in which the task leaves: its event is in the ring, and it is flagged to stay out of
-- the queue.
abbrev pub parked : Tid → (e : Ptr) → (fd events : ℕ) → Select → Select
parked thread e fd events s = record s {
  io = IoEvent.make e fd events (self thread s.world) s.io;
  ring = (RingT.push e s.ring).1;
  world = add_flags (self thread s.world) task_noschedule s.world;
}

-- What a task finds that runs again: failed if it is told that an error came.
abbrev pub told : Ptr → Select → Status × Select
told e s = if wants (s.io.events e) ioerr then (failed, s) else (done, s)

abbrev land : Ptr → Status × Select → Status × Select
land e o = elim o.0 [ failed ↦ (failed, o.1) | done ↦ told e o.1 ]

monitor-swap :
    (thread : Tid) (e : Ptr) (swap : Select → Status × Select) (fd events : ℕ) (s : Select)
    → (is_negative fd || ltb s.maxfileno fd || events == 0) ≡ false
    → is_null (self thread s.world) ≡ false
    → is_null (s.world.context_key.value thread) ≡ false
    → (RingT.push e s.ring).0 ≡ done
    → (swap (parked thread e fd events s)).0 ≡ done
    → monitor thread e swap fd events s ≡ told e (swap (parked thread e fd events s)).1
unfolding monitor
monitor-swap thread e swap fd events s valid task ctx pushed back =
    let s1 = record s {
      io = IoEvent.make e fd events (self thread s.world) s.io;
      ring = (RingT.push e s.ring).1;
    } in
    let leaves =
      relax_in-swap (λ (v : Select). v.world) (λ w v. record v { world = w }) thread swap
        task_noschedule s1 task ctx in
    let until : monitor thread e swap fd events s
        ≡ land e (
            relax_in (λ (v : Select). v.world) (λ w v. record v { world = w }) thread swap
              task_noschedule s1) =
      rw (valid, task, pushed) refl in
    until ∙ ap (land e) leaves ∙ rw back refl

-- In a task, with a descriptor and events that are not refused and room left in the ring,
-- `pcaio_modselect_monitorA` puts the event, with the descriptor, what it waits for and the task
-- that asks, behind the events that wait; the task leaves, flagged to stay out of the queue; and
-- when it runs again the call fails just if it is told of an error.
pub monitor-waits :
    (thread : Tid) (e : Ptr) (swap : Select → Status × Select) (k fd events : ℕ) (s : Select)
    (xs : List Ptr)
    → IsRing k s.ring xs
    → length xs + 1 < 2 ^ k
    → (is_negative fd || ltb s.maxfileno fd || events == 0) ≡ false
    → self thread s.world ≢ null
    → s.world.context_key.value thread ≢ null
    → (swap (parked thread e fd events s)).0 ≡ done
    → IsRing k (parked thread e fd events s).ring (xs ++ (e ∷ []))
      × (monitor thread e swap fd events s ≡ told e (swap (parked thread e fd events s)).1)
monitor-waits thread e swap k fd events s xs is room valid task ctx back =
    let (pushed, is1) = pushes k e s.ring xs is room in
    (is1, monitor-swap thread e swap fd events s valid (ground arith) (ground arith) pushed back)

-- What `pcaio_modselect_monitorA` refuses: a negative descriptor, one above the limit of the
-- module, and one with nothing to wait for. It then fails and changes nothing.
pub monitor-refused :
    (thread : Tid) (e : Ptr) (swap : Select → Status × Select) (fd events : ℕ) (s : Select)
    → (is_negative fd || ltb s.maxfileno fd || events == 0) ≡ true
    → monitor thread e swap fd events s ≡ (failed, s)
unfolding monitor
monitor-refused thread e swap fd events s bad = rw bad refl
