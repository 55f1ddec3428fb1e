-- ===== src/Examples/Asleep/Naps.antt =====
-- The waits of the task of examples/asleep.c.
use pcaio.Prelude.{
  ap₂, ◌/◌, ◌%◌, Status, ℕ, zero, suc, ◌+◌, ◌*◌, ◌<◌, ◌≡◌, refl, ap, ◌∙◌, subst, ◌≢◌, ◌⊎◌, inl, inr,
  false, some, List, [], ◌∷◌, arith, Ptr, null, is_null, update, done, failed, Status-cases,
}
use pcaio.Modio.{ioin, is_negative}
use pcaio.Timer
use pcaio.Timer.{SetCall, settimeout, Timers, Awaited, by_default, sleep}
use pcaio.Timer.Sleep.{awaited, slept, sleep-exact}
use pcaio.Timer.Life.{new-free}
use pcaio.Examples.Asleep.{Nap, nap_all, Ended, sleep_with, task}

-- The waits of so many rounds from round `i` on, each for 100 milliseconds more.
abbrev pub naps_from : (n i : ℕ) → Awaited → List (ℕ × Awaited)
naps_from zero i w = []
naps_from (suc n) i w = (50 + i * 100, w) ∷ naps_from n (i + 1) w

-- The timer can be set to the time of round `j`, in nanoseconds.
abbrev pub Takes : (ℕ → Nap) → (fd j : ℕ) → Type 0
Takes naps fd j = (naps j).settime fd 0 ((50 + j * 100) * 1000000) ≡ done

-- One call, when the timer can be set.
sleep-waits :
    (naps : ℕ → Nap) (i : ℕ) (t : Ptr) (s : Timers)
    → i < 5
    → is_negative (s.fd t) ≡ false
    → s.iomod t ≡ null
    → Takes naps (s.fd t) i
    → sleep (naps i).settime (naps i).answer t (50 + i * 100) (naps i).errno s
      ≡ (by_default (s.fd t) ioin, (naps i).answer (by_default (s.fd t) ioin))
sleep-waits naps i t s few valid default takes =
    let n = naps i in
    let ms = 50 + i * 100 in
    let (set, calls, whole, rest) =
      sleep-exact n.settime n.answer t ms n.errno s (omega arith) (omega arith) valid in
    let secs : ms / 1000 ≡ 0 = omega arith in
    let nsecs : ms % 1000 * 1000000 ≡ ms * 1000000 = omega arith in
    let taken : n.settime (s.fd t) (ms / 1000) (ms % 1000 * 1000000) ≡ done =
      ap₂ (n.settime (s.fd t)) secs nsecs ∙ takes in
    calls ∙ ap (λ (r : Status). slept r (awaited t s) n.answer) taken ∙ rw default refl

nap_all-waits :
    (naps : ℕ → Nap) (t : Ptr) (left i m : ℕ) (s : Timers)
    → i + left ≡ 5
    → is_negative (s.fd t) ≡ false
    → s.iomod t ≡ null
    → ((j : ℕ) → j < i + suc m → Takes naps (s.fd t) j)
    → m < left
    → ((j : ℕ) → j < m → (naps (i + j)).answer (by_default (s.fd t) ioin) ≡ done)
    → (suc m ≡ left) ⊎ ((naps (i + m)).answer (by_default (s.fd t) ioin) ≡ failed)
    → nap_all naps t left i s ≡ naps_from (suc m) i (by_default (s.fd t) ioin)
unfolding nap_all
nap_all-waits naps t zero i m s room valid default takes few woken ends = absurd (omega arith)
nap_all-waits naps t (suc left) i zero s room valid default takes few woken ends =
    let w = by_default (s.fd t) ioin in
    let one = sleep-waits naps i t s (omega arith) valid default (takes i (omega arith)) in
    let stops : (naps i).answer w ≡ done → left ≡ 0 = λ woken. elim ends [
      | inl last ↦ omega arith
      | inr fails ↦
          (let e : i + 0 ≡ i = omega arith in
            let fails : (naps i).answer w ≡ failed =
              subst (λ (k : ℕ). (naps k).answer w ≡ failed) e fails in
            cc)
    ] in
    elim (Status-cases ((naps i).answer w)) [
      | inl woken ↦ rw (nap_all, one, woken, stops woken) refl
      | inr fails ↦ rw (nap_all, one, fails) refl
    ]
nap_all-waits naps t (suc left) i (suc m) s room valid default takes few woken ends =
    let w = by_default (s.fd t) ioin in
    let one = sleep-waits naps i t s (omega arith) valid default (takes i (omega arith)) in
    let moved : (j : ℕ) → i + suc j ≡ i + 1 + j = λ j. omega arith in
    let same : i + 0 ≡ i = omega arith in
    let now : (naps i).answer w ≡ done =
      subst (λ (k : ℕ). (naps k).answer w ≡ done) same (woken 0 (omega arith)) in
    let rest =
      nap_all-waits naps t left (i + 1) m s (omega arith) valid default
        (λ j l. takes j (omega arith)) (omega arith)
        (λ j l. subst (λ (k : ℕ). (naps k).answer w ≡ done) (moved j) (woken (suc j) (omega arith)))
        (elim ends [
          | inl last ↦ inl (omega arith)
          | inr fails ↦ inr (subst (λ (k : ℕ). (naps k).answer w ≡ failed) (moved m) fails)
        ]) in
    rw (nap_all, one, now) (ap (λ (l : List (ℕ × Awaited)). (50 + i * 100, w) ∷ l) rest)

from_zero :
    (fd : ℕ) (naps : ℕ → Nap) (t : Ptr) (m : ℕ) (s : Timers)
    → s.fd t ≡ fd
    → s.iomod t ≡ null
    → is_negative fd ≡ false
    → ((j : ℕ) → j < suc m → Takes naps fd j)
    → m < 5
    → ((j : ℕ) → j < m → (naps j).answer (by_default fd ioin) ≡ done)
    → (m ≡ 4) ⊎ ((naps m).answer (by_default fd ioin) ≡ failed)
    → nap_all naps t 5 0 s ≡ naps_from (suc m) 0 (by_default fd ioin)
from_zero fd naps t m s own =
    subst
      (λ (f : ℕ).
        s.iomod t ≡ null
        → is_negative f ≡ false
        → ((j : ℕ) → j < suc m → Takes naps f j)
        → m < 5
        → ((j : ℕ) → j < m → (naps j).answer (by_default f ioin) ≡ done)
        → (m ≡ 4) ⊎ ((naps m).answer (by_default f ioin) ≡ failed)
        → nap_all naps t 5 0 s ≡ naps_from (suc m) 0 (by_default f ioin))
      own
      (λ plain. λ valid. λ takes. λ few. λ woken. λ ends.
        let w = by_default (s.fd t) ioin in
        let same : (j : ℕ) → j ≡ 0 + j = λ j. omega arith in
        nap_all-waits naps t 5 0 m s (omega arith) valid plain (λ j l. takes j (omega arith)) few
          (λ j l. subst (λ (k : ℕ). (naps k).answer w ≡ done) (same j) (woken j l))
          (elim ends [
            | inl last ↦ inl (ap suc last)
            | inr fails ↦ inr (subst (λ (k : ℕ). (naps k).answer w ≡ failed) (same m) fails)
          ]))

-- The timers behind `pcaio_timer_new(NULL)`.
abbrev with_timer : (fd memory : ℕ) → Timers → Timers
with_timer fd memory s = record s {
  opened = fd ∷ s.opened;
  fd = update s.fd memory fd;
  iomod = update s.iomod memory null;
}

new-timer :
    (fd memory : ℕ) (s : Timers)
    → memory ≢ null
    → Timer.new (some fd) memory null s ≡ (memory, with_timer fd memory s)
unfolding Timer.new
new-timer fd memory s live = let n : is_null memory ≡ false = ground arith in rw n refl

-- The system makes the timer, and of the naps of the task the first `m` succeed, where `m` is at most
-- 4; then the wait of the next one fails, or it is the fifth. The timer need take only the times that
-- it is set to: 50 milliseconds at first, and 100 more each time. The task gives way once, calls
-- `sleepA_ms` `m + 1` times, for just these times, waits each time until its own descriptor can be read,
-- by the default module, and returns 0, with its descriptor closed and its timer freed once.
pub naps_end :
    (fd memory : ℕ) (naps : ℕ → Nap) (m : ℕ) (s : Timers)
    → is_negative fd ≡ false
    → memory ≢ null
    → ((j : ℕ) → j < suc m → Takes naps fd j)
    → m < 5
    → ((j : ℕ) → j < m → (naps j).answer (by_default fd ioin) ≡ done)
    → (m ≡ 4) ⊎ ((naps m).answer (by_default fd ioin) ≡ failed)
    → (e : Ended) × (task (some fd) memory naps s ≡ some e)
      × (e.relaxes ≡ 0 ∷ [])
      × (e.waits ≡ naps_from (suc m) 0 (by_default fd ioin))
      × (e.code ≡ 0)
      × (e.timers.opened ≡ s.opened)
      × (e.timers.freed ≡ memory ∷ s.freed)
unfolding task sleep_with
naps_end fd memory naps m s valid live takes few woken ends =
    let s1 : Timers = with_timer fd memory s in
    let made = new-timer fd memory s live in
    let n : is_null memory ≡ false = ground arith in
    let own : s1.fd memory ≡ fd = ground arith in
    let plain : s1.iomod memory ≡ null = ground arith in
    let (done_once, closed, freed) = new-free fd memory null s live in
    (
      record {
        relaxes = 0 ∷ [];
        waits = nap_all naps memory 5 0 s1;
        code = 0;
        timers = (Timer.free memory s1).1;
      },
      ap (sleep_with naps) made ∙ rw (sleep_with, n) refl,
      refl,
      from_zero fd naps memory m s1 own plain valid takes few woken ends,
      refl,
      subst (λ (r : Ptr × Timers). (Timer.free r.0 r.1).1.opened ≡ s.opened) made closed,
      subst (λ (r : Ptr × Timers). (Timer.free r.0 r.1).1.freed ≡ memory ∷ s.freed) made freed,
    )
