-- ===== src/Timer.antt =====
-- pcaio/timer.c: tasks that sleep, by a descriptor that can be read once its time is over.
pub mod Sleep
pub mod Life
mod Tests
use pcaio.Prelude.{
  ℕ, ◌-◌, ◌*◌, ◌/◌, ◌%◌, ◌^◌, ◌||◌, Option, none, some, List, [], ◌∷◌, leb, ◌==◌, if◌then◌else◌,
  Ptr, null, is_null, update, Status, done, failed, remove,
}
use pcaio.Modio
use pcaio.Modio.{ioin, is_negative}

abbrev pub einval : ℕ
einval = 22

-- Signed division of 64-bit words in two's complement, which rounds to zero, and its remainder.
abbrev pub negate : ℕ → ℕ
negate a = (2 ^ 64 - a) % 2 ^ 64

abbrev pub quot : ℕ → ℕ → ℕ
quot a d = if leb (2 ^ 63) a then negate ((2 ^ 64 - a) / d) else a / d

abbrev pub rem : ℕ → ℕ → ℕ
rem a d = if leb (2 ^ 63) a then negate ((2 ^ 64 - a) % d) else a % d

-- `timerfd_settime(fd, 0, {{0, 0}, {sec, nsec}}, NULL)`.
abbrev pub SetCall : Type 0
SetCall = (fd sec nsec : ℕ) → Status

-- `_settimeout`, with `errno` as it is before and after; `ms` is a word of 64 bits.
unfoldable pub settimeout : SetCall → (fd ms errno : ℕ) → Status × ℕ
settimeout settime fd ms errno =
    if ms == 0 || is_negative fd
    then (failed, einval)
    else (settime fd (quot ms 1000) (rem ms 1000 * 1000000 % 2 ^ 64), errno)

-- The fields of the timers, the descriptors that are open, and what `free` was called with, the
-- latest first.
pub record Timers : Type 0 where
  pub fd : Ptr → ℕ
  pub iomod : Ptr → Ptr
  pub opened : List ℕ
  pub freed : List Ptr

-- `pcaio_timer_new`, by what `timerfd_create` returns, none for -1, and what `malloc` returns: the
-- timer or NULL.
unfoldable pub new : Option ℕ → (memory iomod : Ptr) → Timers → Ptr × Timers
new none memory iomod s = (null, s)
new (some fd) memory iomod s =
    let s1 = record s { opened = fd ∷ s.opened } in
    if is_null memory
    then (null, s1)
    else (memory, record s1 { fd = update s1.fd memory fd; iomod = update s1.iomod memory iomod })

-- `pcaio_timer_free`.
unfoldable pub free : Ptr → Timers → Status × Timers
free t s =
    if is_null t
    then (failed, s)
    else (done, record s { opened = remove (s.fd t) s.opened; freed = t ∷ s.freed })

-- What a task waits for in `sleepA_ms`: that this module, or the default one, reports these events
-- of a descriptor.
pub data Awaited : Type 0 where
  by_module : (iomod : Ptr) → (fd events : ℕ) → Awaited
  by_default : (fd events : ℕ) → Awaited
  nothing : Awaited

-- `sleepA_ms`: what it waits for, and what it returns, by what that wait answers.
unfoldable pub sleep :
    SetCall → (answer : Awaited → Status) → (t : Ptr) → (ms errno : ℕ) → Timers → Awaited × Status
unfolding settimeout
sleep settime answer t ms errno s =
    let awaited =
      if is_null (s.iomod t)
      then by_default (s.fd t) ioin
      else by_module (s.iomod t) (s.fd t) ioin in
    elim ((settimeout settime (s.fd t) ms errno).0) [
      | failed ↦ (nothing, failed)
      | done ↦ (awaited, answer awaited)
    ]
