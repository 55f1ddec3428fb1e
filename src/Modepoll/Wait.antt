-- ===== src/Modepoll/Wait.antt =====
-- `pcaio_modepoll_monitorA` of pcaio/modepoll.c: how a task waits for a descriptor.
use Prim.Native.Nat.{bit_or}
use pcaio.Prelude.{
  ℕ, ◌+◌, ◌^◌, ◌<◌, ◌≡◌, refl, ap, ◌∙◌, ◌≢◌, ◌⊎◌, true, false, not, ◌||◌, ◌&&◌, List, [], ◌∷◌, ◌++◌,
  arith, ◌==◌, if◌then◌else◌, Ptr, null, is_null, Status, done, failed, Tid, length, has,
}
use pcaio.World.{task_noschedule}
use pcaio.Relax.{self, relax_in, relax_in-swap, add_flags}
use pcaio.ListT
use pcaio.ListT.Refine.{IsList, append-outside, clear-IsList}
use pcaio.Modio.{ioerr, is_negative}
use pcaio.Modselect.{wants}
use pcaio.Modepoll.{Epoll, armed, oneshot, Controls, new_event, forget, monitor}

-- The state behind `epoll_ctl`, and the one in which the task leaves: its event is in the list, and
-- it is flagged to stay out of the queue.
abbrev pub asked : Tid → (e : Ptr) → (fd events : ℕ) → Epoll → Epoll
asked thread e fd events s =
    let s1 = new_event e fd events (self thread s.world) s in
    record s1 { controls = armed fd (bit_or events oneshot) e ∷ s1.controls }

abbrev pub listed : Tid → (e : Ptr) → (fd events : ℕ) → Epoll → Epoll
listed thread e fd events s =
    let s1 = asked thread e fd events s in record s1 { waiting = (ListT.append e s1.waiting).1 }

abbrev pub parked : Tid → (e : Ptr) → (fd events : ℕ) → Epoll → Epoll
parked thread e fd events s =
    let s1 = listed thread e fd events s in
    record s1 { world = add_flags (self thread s1.world) task_noschedule s1.world }

-- What a task finds that runs again: failed if it is told that an error came.
abbrev pub told : Ptr → Epoll → Status × Epoll
told e s = if wants (s.io.events e) ioerr then (failed, s) else (done, s)

-- What becomes of the call once `pcaio_relaxA` has returned.
abbrev pub land : Ptr → (fd : ℕ) → Status × Epoll → Status × Epoll
land e fd (status, s) = elim status [
  | failed ↦ (failed, record (forget fd s) { waiting = (ListT.delete e s.waiting).1 })
  | done ↦ told e s
]

monitor-land :
    (thread : Tid) (e : Ptr) (swap : Epoll → Status × Epoll) (ctl : Controls) (fd events : ℕ)
    (s : Epoll)
    → (is_negative fd || events == 0 || is_null (self thread s.world)) ≡ false
    → (not (ctl.modify == 0) && not (ctl.add == 0)) ≡ false
    → is_null (s.world.context_key.value thread) ≡ false
    → (ListT.append e (asked thread e fd events s).waiting).0 ≡ done
    → monitor thread e swap ctl fd events s ≡ land e fd (swap (parked thread e fd events s))
unfolding monitor
monitor-land thread e swap ctl fd events s valid controlled ctx appended =
    let leaves =
      relax_in-swap (λ (v : Epoll). v.world) (λ w v. record v { world = w }) thread swap
        task_noschedule (listed thread e fd events s) (ground arith) ctx in
    let until : monitor thread e swap ctl fd events s
        ≡ land e fd (
            relax_in (λ (v : Epoll). v.world) (λ w v. record v { world = w }) thread swap
              task_noschedule (listed thread e fd events s)) =
      rw (valid, controlled, appended) refl in
    until ∙ ap (land e fd) leaves

-- In a task, with a descriptor and events that are not refused, room in the list, and an
-- `epoll_ctl` that takes one of the two requests, `pcaio_modepoll_monitorA` puts the event, new to
-- the list, behind the events that wait; the task leaves, flagged to stay out of the queue; when
-- it runs again the call fails just if it is told of an error, and when it could not leave the
-- event is taken out of the list.
pub monitor-lists :
    (thread : Tid) (e : Ptr) (swap : Epoll → Status × Epoll) (ctl : Controls) (fd events : ℕ)
    (s : Epoll) {ws : List Ptr}
    → IsList s.waiting ws
    → e ≢ null
    → has e ws ≡ false
    → length ws + 1 < 2 ^ 64
    → (is_negative fd || events == 0) ≡ false
    → self thread s.world ≢ null
    → s.world.context_key.value thread ≢ null
    → (ctl.modify ≡ 0) ⊎ (ctl.add ≡ 0)
    → IsList (parked thread e fd events s).waiting (ws ++ (e ∷ []))
      × (monitor thread e swap ctl fd events s ≡ land e fd (swap (parked thread e fd events s)))
monitor-lists thread e swap ctl fd events s l n out room valid task ctx taken =
    let (appended, holds) = append-outside e (clear-IsList e l out) n out room in
    (
      holds,
      monitor-land thread e swap ctl fd events s (ground arith) (ground arith) (ground arith)
          appended,
    )

-- What `pcaio_modepoll_monitorA` refuses: a negative descriptor, and one with nothing to wait for. It
-- then fails and changes nothing.
pub monitor-refused :
    (thread : Tid) (e : Ptr) (swap : Epoll → Status × Epoll) (ctl : Controls) (fd events : ℕ)
    (s : Epoll)
    → (is_negative fd || events == 0) ≡ true
    → monitor thread e swap ctl fd events s ≡ (failed, s)
unfolding monitor
monitor-refused thread e swap ctl fd events s bad = ground arith
