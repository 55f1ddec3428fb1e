-- ===== src/Examples/Asleep.antt =====
-- examples/asleep.c: a task that sleeps five times.
pub mod Naps
pub mod Program
use pcaio.Prelude.{
  ℕ, zero, suc, ◌+◌, ◌*◌, ◌%◌, ◌^◌, ◌<◌, ◌≡◌, refl, ap, ◌∙◌, subst, ◌≢◌, ◌⊎◌, inl, inr, true, false,
  Option, none, some, List, [], ◌∷◌, arith, ◌==◌, ◌||◌, if◌then◌else◌, Ptr, null, is_null, update,
  Status, done, failed, remove, Status-cases,
}
use pcaio.Modio.{ioin, is_negative}
use pcaio.Timer
use pcaio.Timer.{SetCall, settimeout, Timers, Awaited, by_default, sleep}
use pcaio.Timer.Sleep.{sleep-exact}
use pcaio.Timer.Life.{new-free}

-- What one call of `sleepA_ms` meets.
pub record Nap : Type 0 where
  pub settime : SetCall
  pub answer : Awaited → Status
  pub errno : ℕ

-- The loop of `_taskA`, with `left` rounds to go: for how many milliseconds it calls `sleepA_ms`, and
-- what that waits for.
unfoldable pub nap_all : (ℕ → Nap) → (timer : Ptr) → (left i : ℕ) → Timers → List (ℕ × Awaited)
nap_all naps timer zero i s = []
nap_all naps timer (suc left) i s =
    let n = naps i in
    let ms = 50 + i * 100 in
    let slept = sleep n.settime n.answer timer ms n.errno s in
    let rest = nap_all naps timer left (i + 1) s in
    (ms, slept.0) ∷ elim slept.1 [ done ↦ rest | failed ↦ [] ]

-- The flags with which the task calls `pcaio_relaxA`, what it waits for after that, what it
-- returns, and the timers that it leaves.
pub record Ended : Type 0 where
  pub relaxes : List ℕ
  pub waits : List (ℕ × Awaited)
  pub code : ℕ
  pub timers : Timers

-- `_taskA` with the timer that it made; none when it reads through NULL, since it does not ask
-- whether there is a timer.
unfoldable pub sleep_with : (ℕ → Nap) → Ptr × Timers → Option Ended
sleep_with naps (timer, s) =
    if is_null timer
    then none
    else some (record {
      relaxes = 0 ∷ [];
      waits = nap_all naps timer 5 0 s;
      code = 0;
      timers = (Timer.free timer s).1;
    })

-- `_taskA`, by what `timerfd_create` and `malloc` return.
unfoldable pub task : (created : Option ℕ) → (memory : Ptr) → (ℕ → Nap) → Timers → Option Ended
task created memory naps s = sleep_with naps (Timer.new created memory null s)
