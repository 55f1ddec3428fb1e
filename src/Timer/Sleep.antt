-- ===== src/Timer/Sleep.antt =====
-- How long `sleepA_ms` of pcaio/timer.c sets the timer to.
use pcaio.Prelude.{
  ap, ap₂, ◌/◌, inl, inr, Status-cases, ℕ, ◌+◌, ◌*◌, ◌%◌, ◌^◌, ◌<◌, ◌≡◌, refl, ◌≢◌, true, false,
  ◌||◌, arith, leb, ◌==◌, if◌then◌else◌, Ptr, is_null, Status, done, failed,
}
use pcaio.Modio.{ioin, is_negative}
use pcaio.Timer.{
  SetCall, settimeout, Timers, Awaited, by_module, by_default, nothing, sleep, quot, rem,
}

-- For a time that is not negative, division and remainder are those of natural numbers.
timespec :
    (ms : ℕ)
    → ms < 2 ^ 63
    → (quot ms 1000 ≡ ms / 1000) × (rem ms 1000 * 1000000 % 2 ^ 64 ≡ ms % 1000 * 1000000)
timespec ms small =
    let plain : leb (2 ^ 63) ms ≡ false = ground arith in rw plain (refl, omega arith)

-- Through which module the task waits.
abbrev pub awaited : Ptr → Timers → Awaited
awaited t s =
    if is_null (s.iomod t) then by_default (s.fd t) ioin else by_module (s.iomod t) (s.fd t) ioin

-- What `sleepA_ms` does by what `timerfd_settime` returns.
abbrev pub slept : Status → Awaited → (answer : Awaited → Status) → Awaited × Status
slept done w answer = (w, answer w)
slept failed w answer = (nothing, failed)

-- With a positive time and a valid descriptor, `sleepA_ms` calls `timerfd_settime` with the whole
-- seconds and the nanoseconds that are left, fewer than a second has, which together are exactly the
-- time that was asked for. If that call fails, so does `sleepA_ms`, and nothing is waited for;
-- otherwise the task waits until the descriptor can be read, through the module of the timer or the
-- default one, and the call returns what that wait answers.
pub sleep-exact :
    (settime : SetCall) (answer : Awaited → Status) (t : Ptr) (ms errno : ℕ) (s : Timers)
    → ms ≢ 0
    → ms < 2 ^ 63
    → is_negative (s.fd t) ≡ false
    → let sec = ms / 1000 in
      let nsec = ms % 1000 * 1000000 in
      (settimeout settime (s.fd t) ms errno ≡ (settime (s.fd t) sec nsec, errno))
      × (sleep settime answer t ms errno s ≡ slept (settime (s.fd t) sec nsec) (awaited t s) answer)
      × (sec * 1000000000 + nsec ≡ ms * 1000000)
      × (nsec < 1000000000)
unfolding settimeout sleep
sleep-exact settime answer t ms errno s positive small valid =
    let (secs, nsecs) = timespec ms small in
    let guard : (ms == 0 || is_negative (s.fd t)) ≡ false = ground arith in
    let set : (settimeout settime (s.fd t) ms errno).0
        ≡ settime (s.fd t) (ms / 1000) (ms % 1000 * 1000000) =
      rw guard (ap₂ (settime (s.fd t)) secs nsecs) in
    (
      rw guard (ap (λ (r : Status). (r, errno)) (ap₂ (settime (s.fd t)) secs nsecs)),
      elim (Status-cases (settime (s.fd t) (ms / 1000) (ms % 1000 * 1000000))) [
        | inl takes ↦ rw (sleep, set, takes) refl
        | inr refuses ↦ rw (sleep, set, refuses) refl
      ],
      omega arith,
      omega arith,
    )

-- A time of zero and a negative descriptor are refused without a call, and nothing is waited for.
pub sleep-refused :
    (settime : SetCall) (answer : Awaited → Status) (t : Ptr) (ms errno : ℕ) (s : Timers)
    → (ms == 0 || is_negative (s.fd t)) ≡ true
    → sleep settime answer t ms errno s ≡ (nothing, failed)
unfolding settimeout sleep
sleep-refused settime answer t ms errno s bad = rw (sleep, bad) refl
