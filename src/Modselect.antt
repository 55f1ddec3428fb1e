-- ===== src/Modselect.antt =====
-- pcaio/modselect.c: the module that waits for descriptors by `select`. The tasks that wait stand in
-- a ring of events; a tick asks `select` about them, queues the tasks whose descriptor is ready,
-- and puts the other events back.
pub mod Collect
pub mod Sweep
pub mod Tick
pub mod Wait
pub mod Use
pub mod Round
pub mod Limit
pub mod Edge
mod Tests
use Prim.Native.Nat.{bit_or, bit_and}
use pcaio.Prelude.{
  ℕ, zero, suc, ◌/◌, ◌%◌, Bool, true, false, not, ◌||◌, Option, none, some, List, [], ◌∷◌, ltb,
  ◌==◌, if◌then◌else◌, Ptr, null, is_null, update, Status, done, failed, Tid,
}
use pcaio.World.{World, task_noschedule, schedule}
use pcaio.Relax.{self, relax_in}
use pcaio.RingT
use pcaio.RingT.{Ring}
use pcaio.IoEvent
use pcaio.IoEvent.{IoEvents, set_events}
use pcaio.Modio.{ioin, ioout, ioerr, is_negative}
use pcaio.Master.{TickStatus, pms_idle, pms_panic, pms_again, State, module_install}

-- `struct modselect` behind `_mod`, less its `swap`, which only a tick uses; the events of the
-- tasks that wait, and the state that all modules share.
pub record Select : Type 0 where
  pub iomod : Ptr
  pub maxfileno : ℕ
  pub ring : Ring
  pub io : IoEvents
  pub world : World

-- `rfds`, `wfds` and `efds`.
pub record FdSets : Type 0 where
  pub rfds : ℕ → Bool
  pub wfds : ℕ → Bool
  pub efds : ℕ → Bool

-- `FD_ZERO` on all three.
abbrev pub no_fds : FdSets
no_fds = record { rfds = λ _. false; wfds = λ _. false; efds = λ _. false }

-- Whether a bit of a mask is set.
abbrev pub wants : ℕ → ℕ → Bool
wants events bit = not (bit_and events bit == 0)

-- What the first loop of `_tick` adds to the sets for an event, whose descriptor is below FD_SETSIZE;
-- C leaves `FD_SET` undefined for any other.
unfoldable pub add_event : IoEvents → Ptr → FdSets → FdSets
add_event io e sets = record {
  rfds = if wants (io.events e) ioin then update sets.rfds (io.fd e) true else sets.rfds;
  wfds = if wants (io.events e) ioout then update sets.wfds (io.fd e) true else sets.wfds;
  efds = update sets.efds (io.fd e) true;
}

-- What the first loop of `_tick` comes to: an event that waits for nothing, a read out of the
-- bounds of the ring's array, or the events that are now in `swap`, with their sets.
pub data Collected : Type 0 where
  bad_event : Ring → Collected
  out_of_bounds : Collected
  collected : List Ptr → FdSets → Ring → Collected

abbrev pub collect_one : Ptr → Collected → Collected
collect_one e (bad_event r) = bad_event r
collect_one e out_of_bounds = out_of_bounds
collect_one e (collected es sets r) = collected (e ∷ es) sets r

-- The first loop of `_tick`, with room for `left` more events in `swap`.
unfoldable pub collect : (left : ℕ) → IoEvents → FdSets → Ring → Collected
unfolding add_event
collect zero io sets r = collected [] sets r
collect (suc left) io sets r =
    let (status, popped, r1) = RingT.pop r in
    elim status [
      | failed ↦ collected [] sets r1
      | done ↦ elim popped [
        | none ↦ out_of_bounds
        | some e ↦
            if io.events e == 0
            then bad_event r1
            else (let rest = collect left io (add_event io e sets) r1 in collect_one e rest)
      ]
    ]

-- `ready` of the second loop: what came for a descriptor. `broken` says that `select` failed.
unfoldable pub ready_events : (broken : Bool) → FdSets → (fd : ℕ) → ℕ
ready_events broken sets fd =
    let ready = if sets.rfds fd then bit_or 0 ioin else 0 in
    let ready1 = if sets.wfds fd then bit_or ready ioout else ready in
    if broken || sets.efds fd then bit_or ready1 ioerr else ready1

-- One round of the second loop: the event goes back into the ring, or its task is queued.
unfoldable pub settle_one : (broken : Bool) → FdSets → Ptr → Select → Status × Select
unfolding ready_events
settle_one broken sets e s =
    let ready = ready_events broken sets (s.io.fd e) in
    let (pushed, ring1) = RingT.push e s.ring in
    if ready == 0 then (pushed, record s { ring = ring1 }) else (
      done,
      record s { io = set_events e ready s.io; world = (schedule (s.io.task e) s.world).1 },
    )

-- The second loop; `ret` is what the tick returns unless the ring is full.
unfoldable pub settle_all :
    (ret : TickStatus) → (broken : Bool) → FdSets → List Ptr → Select → TickStatus × Select
unfolding settle_one
settle_all ret broken sets [] s = (ret, s)
settle_all ret broken sets (e ∷ es) s =
    let (status, s1) = settle_one broken sets e s in
    let rest = settle_all ret broken sets es s1 in
    elim status [ done ↦ rest | failed ↦ (pms_panic, s1) ]

-- `select(nfds, rfds, wfds, efds, tv)`: none for -1, and otherwise the sets that it leaves.
abbrev pub SelectCall : Type 0
SelectCall = (nfds : ℕ) → FdSets → (sec usec : ℕ) → Option FdSets

-- The part of `_tick` behind its first loop.
unfoldable pub ask :
    SelectCall → (timeout_us : ℕ) → List Ptr → FdSets → Select → TickStatus × Select
unfolding settle_all
ask select timeout_us [] sets s = (pms_again, s)
ask select timeout_us (e ∷ es) sets s =
    elim (select s.maxfileno sets (timeout_us / 1000000) (timeout_us % 1000000)) [
      | none ↦
          settle_all pms_panic true (record sets { rfds = λ _. false; wfds = λ _. false }) (e ∷ es)
            s
      | some sets1 ↦ settle_all pms_again false sets1 (e ∷ es) s
    ]

-- `_tick`: none if the ring's array is read out of its bounds.
unfoldable pub tick : SelectCall → (timeout_us : ℕ) → Select → Option (TickStatus × Select)
unfolding collect ask
tick select timeout_us s =
    if RingT.is_empty s.ring
    then some (pms_idle, s)
    else elim (collect s.maxfileno s.io no_fds s.ring) [
      | bad_event r ↦ some (pms_panic, record s { ring = r })
      | out_of_bounds ↦ none
      | collected es sets r ↦ some (ask select timeout_us es sets (record s { ring = r }))
    ]

-- `pcaio_modselect_monitorA` in the thread `thread`: `e` is the event on the stack of the task, and
-- `swap` what `swapcontext` comes to: that the task runs again, in the state that it then finds.
unfoldable pub monitor :
    Tid → (e : Ptr) → (swap : Select → Status × Select) → (fd events : ℕ) → Select → Status × Select
unfolding self
monitor thread e swap fd events s =
    let t = self thread s.world in
    let s1 = record s { io = IoEvent.make e fd events t s.io } in
    let (pushed, ring1) = RingT.push e s1.ring in
    let s2 = record s1 { ring = ring1 } in
    let (relaxed, s3) =
      relax_in (λ (v : Select). v.world) (λ w v. record v { world = w }) thread swap task_noschedule
        s2 in
    if is_negative fd || ltb s.maxfileno fd || events == 0
    then (failed, s)
    else (if is_null t then (failed, s) else elim pushed [
      | failed ↦ (failed, s2)
      | done ↦ elim relaxed [
        | failed ↦ (failed, s3)
        | done ↦ if wants (s3.io.events e) ioerr then (failed, s3) else (done, s3)
      ]
    ])
