-- ===== src/Modepoll.antt =====
-- pcaio/modepoll.c: the module that waits for descriptors by `epoll`. The events of the tasks that
-- wait stand in a list; a tick takes those out of it that `epoll_wait` reports, and queues their
-- tasks.
pub mod Tick
pub mod Drain
pub mod Wait
pub mod Round
pub mod Use
mod Tests
use Prim.Native.Nat.{bit_or}
use pcaio.Prelude.{
  ℕ, zero, suc, ◌+◌, ◌/◌, Bool, ◌||◌, ◌&&◌, not, Option, none, some, List, [], ◌∷◌, ltb, ◌==◌,
  if◌then◌else◌, Ptr, null, is_null, update, Status, done, failed, Tid, length,
}
use pcaio.World.{World, task_noschedule, schedule}
use pcaio.Relax.{self, relax_in}
use pcaio.ListT
use pcaio.ListT.{DList}
use pcaio.IoEvent
use pcaio.IoEvent.{IoEvents, set_events}
use pcaio.Modio.{ioerr, is_negative}
use pcaio.Modselect.{wants}
use pcaio.Master.{
  TickStatus, pms_idle, pms_panic, pms_again, pms_invalid, State, module_install, address,
}

-- What the module asked `epoll_ctl` for with success: to report these events of a descriptor for an
-- event of ours, or to forget the descriptor.
pub data Control : Type 0 where
  armed : (fd events : ℕ) → (e : Ptr) → Control
  forgotten : (fd : ℕ) → Control

-- `struct modepoll` behind `_mod`, less its array; the events of the tasks that wait, the state that
-- all modules share, and what was asked of `epoll_ctl`, the latest first.
pub record Epoll : Type 0 where
  pub iomod : Ptr
  pub fd : ℕ
  pub maxevents : ℕ
  pub waiting : DList
  pub io : IoEvents
  pub world : World
  pub controls : List Control

-- `EPOLLONESHOT`.
abbrev pub oneshot : ℕ
oneshot = 0x40000000

-- `_init`; the option is what `epoll_create1` returns, none for -1.
unfoldable pub init : Option ℕ → Epoll → Status × Epoll
init none s = (failed, s)
init (some fd) s = (
  done,
  record s {
    waiting = ListT.init (record s.waiting { head = null; tail = null; count = 0 });
    fd = fd;
  },
)

-- An entry of the array that `epoll_wait` fills: the event that was armed, and what came.
pub record Came : Type 0 where
  pub event : Ptr
  pub events : ℕ

-- `pcaio_schedule(e->task)`.
abbrev pub wake : Ptr → Epoll → Epoll
wake e s = record s { world = (schedule (s.io.task e) s.world).1 }

-- The loop over the events that `epoll_wait` reports.
unfoldable pub deliver : List Came → Epoll → TickStatus × Epoll
deliver [] s = (pms_again, s)
deliver (c ∷ cs) s =
    let s1 = record s { io = set_events c.event c.events s.io } in
    let (status, l) = ListT.delete c.event s1.waiting in
    let s2 = record s1 { waiting = l } in
    let rest = deliver cs (wake c.event s2) in
    elim status [ done ↦ rest | failed ↦ (pms_invalid, s2) ]

-- The loop that empties the list after a failure: a round for each event, and one that ends it.
unfoldable pub drain : (fuel : ℕ) → Epoll → Epoll
drain zero s = s
drain (suc fuel) s =
    let (status, popped, l) = ListT.pop address s.waiting in
    let s1 = record s { waiting = l } in
    elim popped [
      | none ↦ s1
      | some e ↦
          drain fuel
            (wake e (record s1 { io = set_events e (bit_or (s1.io.events e) ioerr) s1.io }))
    ]

-- `epoll_wait(epfd, events, maxevents, timeout)`: none for -1, and otherwise what it reports.
abbrev pub WaitCall : Type 0
WaitCall = (epfd maxevents timeout : ℕ) → Option (List Came)

-- `_tick`: none if `epoll_wait` writes behind the end of the array, which has `maxevents` places.
unfoldable pub tick : WaitCall → (timeout_us : ℕ) → Epoll → Option (TickStatus × Epoll)
unfolding deliver drain
tick wait timeout_us s =
    if s.waiting.count == 0
    then some (pms_idle, s)
    else elim (wait s.fd s.waiting.count (timeout_us / 1000)) [
      | none ↦ some (pms_panic, drain (s.waiting.count + 1) s)
      | some came ↦ if ltb s.maxevents (length came) then none else some (deliver came s)
    ]

-- What `epoll_ctl` returns when it is asked to modify, and then to add a descriptor.
pub record Controls : Type 0 where
  pub modify : ℕ
  pub add : ℕ

-- `epoll_ctl` with `EPOLL_CTL_DEL`, whose result is ignored.
abbrev pub forget : (fd : ℕ) → Epoll → Epoll
forget fd s = record s { controls = forgotten fd ∷ s.controls }

-- The new event, cleared and filled.
abbrev pub new_event : Ptr → (fd events : ℕ) → (task : Ptr) → Epoll → Epoll
new_event e fd events t s = record s {
  io = IoEvent.make e fd events t s.io;
  waiting = record s.waiting {
    next = update s.waiting.next e null;
    prev = update s.waiting.prev e null;
  };
}

-- `pcaio_modepoll_monitorA` in the thread `thread`: `e` is the event on the stack of the task, and
-- `swap` what `swapcontext` comes to: that the task runs again, in the state that it then finds.
unfoldable pub monitor :
    Tid
    → (e : Ptr) → (swap : Epoll → Status × Epoll) → Controls
    → (fd events : ℕ) → Epoll
    → Status × Epoll
unfolding self
monitor thread e swap ctl fd events s =
    let t = self thread s.world in
    let s1 = new_event e fd events t s in
    let s2 = record s1 { controls = armed fd (bit_or events oneshot) e ∷ s1.controls } in
    let (appended, l) = ListT.append e s2.waiting in
    let s3 = record s2 { waiting = l } in
    let (relaxed, s4) =
      relax_in (λ (v : Epoll). v.world) (λ w v. record v { world = w }) thread swap task_noschedule
        s3 in
    if is_negative fd || events == 0 || is_null t
    then (failed, s)
    else (if not (ctl.modify == 0) && not (ctl.add == 0) then (failed, s1) else elim appended [
      | failed ↦ (failed, forget fd s2)
      | done ↦ elim relaxed [
        | failed ↦ (failed, record (forget fd s4) { waiting = (ListT.delete e s4.waiting).1 })
        | done ↦ if wants (s4.io.events e) ioerr then (failed, s4) else (done, s4)
      ]
    ])

-- `_mod`, and its `maxevents` while it is installed; the descriptors that were closed, and what
-- `free` was called with, the latest first.
pub record Module : Type 0 where
  pub iomod : Ptr
  pub maxevents : ℕ
  pub closed : List ℕ
  pub freed : List Ptr

-- `_dtor`; `fd` is the descriptor of the module.
unfoldable pub dtor : (fd : ℕ) → Module → Status × Module
dtor fd m =
    if is_null m.iomod
    then (failed, m)
    else (done, record m { closed = fd ∷ m.closed; freed = m.iomod ∷ m.freed; iomod = null })

-- `pcaio_modepoll_use`; `memory` is what `malloc` returns.
unfoldable pub use_epoll :
    {M : Type 0} (memory : Ptr) → (maxevents : ℕ) → Module → State M → Status × Module × State M
use_epoll memory maxevents m s =
    let (r, s1) = module_install memory s in
    if not (is_null m.iomod) || maxevents == 0 || is_null memory then (failed, m, s) else elim r [
      | done ↦ (done, record m { iomod = memory; maxevents = maxevents }, s1)
      | failed ↦ (failed, record m { freed = memory ∷ m.freed }, s1)
    ]
