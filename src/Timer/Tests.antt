-- ===== src/Timer/Tests.antt =====
-- Runs of the timers of pcaio/timer.c.
use pcaio.Prelude.{
  ◌+◌, ◌*◌, ◌<◌, ◌≡◌, refl, arith, [], ◌∷◌, Status, done, failed, ◌&&◌, ◌==◌, if◌then◌else◌,
}
use pcaio.Timer.{SetCall, settimeout, Timers, Awaited, sleep}
use pcaio.Timer.Sleep.{awaited, slept, sleep-exact}

-- The timer 20 has the descriptor 4 and waits through the module 50.
abbrev one_timer : Timers
one_timer = record { fd = λ t. 4; iomod = λ t. 50; opened = 4 ∷ []; freed = [] }

-- Only two and a half seconds are taken.
abbrev takes : SetCall
takes fd sec nsec = if fd == 4 && (sec == 2 && nsec == 500000000) then done else failed

abbrev wakes : Awaited → Status
wakes a = done

sleep-exact_example :
    (settimeout takes 4 2500 0 ≡ (takes 4 2 500000000, 0))
    × (sleep takes wakes 20 2500 0 one_timer
        ≡ slept (takes 4 2 500000000) (awaited 20 one_timer) wakes)
    × (2 * 1000000000 + 500000000 ≡ 2500 * 1000000)
    × (500000000 < 1000000000)
sleep-exact_example = sleep-exact takes wakes 20 2500 0 one_timer (omega arith) (omega arith) refl
