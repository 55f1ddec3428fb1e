-- ===== src/Timer/Life.antt =====
-- The descriptors of the timers of pcaio/timer.c.
use pcaio.Prelude.{ℕ, ◌≡◌, refl, ◌≢◌, some, ◌∷◌, arith, Ptr, null, done}
use pcaio.Timer.{Timers, new, free}

-- A timer that is made and freed leaves no descriptor open that was not open before, and gives its
-- memory back.
pub new-free :
    (fd : ℕ) (memory iomod : Ptr) (s : Timers)
    → memory ≢ null
    → let (t, s1) = new (some fd) memory iomod s in
      let (r, s2) = free t s1 in (r ≡ done) × (s2.opened ≡ s.opened) × (s2.freed ≡ memory ∷ s.freed)
unfolding new free
new-free fd memory iomod s n = ground arith

-- If there is no memory for a timer its descriptor stays open, and the caller gets only NULL.
pub new_leaks :
    (fd : ℕ) (iomod : Ptr) (s : Timers)
    → new (some fd) null iomod s ≡ (null, record s { opened = fd ∷ s.opened })
unfolding new
new_leaks fd iomod s = refl
