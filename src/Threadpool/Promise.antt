-- ===== src/Threadpool/Promise.antt =====
-- What a caller of `threadpool_scale` (pcaio/threadpool.c) can rely on.
use pcaio.Prelude.{
  Status-cases, ℕ, zero, suc, ◌+◌, ◌-◌, ◌^◌, ◌≤◌, ◌<◌, ◌≡◌, refl, ◌≢◌, ◌++◌, arith, Ptr, null,
  Status, done, failed, ◌⊎◌, inl, inr, true, false, Bool-cases,
}
use pcaio.Threadpool.{
  Tid, Threadpool, System, thread, create_from, scaleup, cancel_down, join_down, join_if, scaledown,
  scale, lock,
}
use pcaio.Threadpool.Loops.{slice}
use pcaio.Threadpool.Scale.{Moved, scale-Moved}

-- What `scale` leaves of the pool `before`, asked for `n` threads.
pub record Scaled (n : ℕ) (before : Threadpool) (out : Status × Threadpool) : Type 0 where
  pub reached : (out.0 ≡ failed) ⊎ (out.1.count ≡ n)
  pub between :
      ((before.count ≤ out.1.count) × (out.1.count ≤ n))
      ⊎ ((n ≤ out.1.count) × (out.1.count ≤ before.count))
  pub kept : (j : ℕ) → (out.1.threads j ≡ before.threads j) ⊎ ((before.count ≤ j) × (j < n))
  pub stopped :
      (out.0 ≡ failed)
      ⊎ ((before.count < n)
          ⊎ ((out.1.cancelled ≡ slice before.threads (before.count - n) n ++ before.cancelled)
              × (out.1.joined ≡ slice before.threads (before.count - n) n ++ before.joined)))
  pub released : (before.mutex ≡ true) ⊎ (out.1.mutex ≡ false)

order : (a b : ℕ) → (a < b) ⊎ (b ≤ a)
order a b = omega arith

Moved-Scaled :
    (n : ℕ) (before : Threadpool) (out : Status × Threadpool)
    → Moved n before out
    → Scaled n before out
Moved-Scaled n before out moved = record {
  reached = elim (Status-cases out.0) [ inl ok ↦ inr (moved.reached ok) | inr bad ↦ inl bad ];
  between = elim (order before.count n) [
    | inl less ↦ inl (moved.no_undershoot.0 (omega arith), moved.no_overshoot.0 (omega arith))
    | inr more ↦ inr (moved.no_overshoot.1 more, moved.no_undershoot.1 more)
  ];
  kept = λ j. elim (order j before.count) [
    | inl less ↦ inl (moved.kept j less)
    | inr more ↦ elim (order j n) [
      | inl new ↦ inr (more, new)
      | inr beyond ↦ inl (moved.in_bounds j more beyond)
    ]
  ];
  stopped = elim (Status-cases out.0) [
    | inl ok ↦ elim (order before.count n) [
      | inl less ↦ inr (inl less)
      | inr more ↦ inr (inr (moved.stopped ok more))
    ]
    | inr bad ↦ inl bad
  ];
  released = elim (Bool-cases before.mutex) [
    | inl held ↦ inl held
    | inr free ↦ inr (moved.released free)
  ];
}

-- Whatever the system answers, for numbers below 2 ^ 16: `scale` reports success only with as many
-- threads as it was asked for; the number of threads stays between the old one and that one; no
-- place is written but those between the old number and a larger new one; a success that does not
-- grow the pool has cancelled and joined exactly the threads from `n` on, the last one first; and
-- a mutex that was free is free.
pub scale-Scaled :
    (sys : System) (p : Ptr) (n : ℕ) (tp : Threadpool)
    → p ≢ null
    → n < 2 ^ 16
    → tp.count < 2 ^ 16
    → Scaled n tp (scale sys p n tp)
scale-Scaled sys p n tp live small small' =
    Moved-Scaled n tp (scale sys p n tp) (scale-Moved sys p n tp live small small')

-- The system grants every request.
pub record Grants (sys : System) : Type 0 where
  pub creates : (i : ℕ) → (t : Tid) × (sys.create i ≡ thread t)
  pub cancels : (i : ℕ) → sys.cancel i ≡ 0
  pub joins : (i : ℕ) → sys.join i ≡ 0

create_from-done :
    (sys : System) (left i : ℕ) (tp : Threadpool)
    → Grants sys
    → (create_from sys left i tp).0 ≡ done
unfolding create_from
create_from-done sys zero i tp g = refl
create_from-done sys (suc left) i tp g =
    rw ((g.creates i).1, create_from) (create_from-done sys left (i + 1) _ g)

cancel_down-done :
    (sys : System) (left target : ℕ) (tp : Threadpool)
    → Grants sys
    → (cancel_down sys left target tp).0 ≡ done
unfolding cancel_down
cancel_down-done sys zero target tp g = refl
cancel_down-done sys (suc left) target tp g =
    rw (g.cancels (target + left), cancel_down) (cancel_down-done sys left target _ g)

join_down-done :
    (sys : System) (left target : ℕ) (tp : Threadpool)
    → Grants sys
    → (join_down sys left target tp).0 ≡ done
unfolding join_down
join_down-done sys zero target tp g = refl
join_down-done sys (suc left) target tp g =
    rw (g.joins (target + left), join_down) (join_down-done sys left target _ g)

join_if-done :
    (sys : System) (left target : ℕ) (out : Status × Threadpool)
    → Grants sys
    → out.0 ≡ done
    → (join_if sys left target out).0 ≡ done
unfolding join_if
join_if-done sys left target (done, tp) g e = join_down-done sys left target tp g
join_if-done sys left target (failed, tp) g e = e

pub scale-done :
    (sys : System) (p : Ptr) (n : ℕ) (tp : Threadpool)
    → Grants sys
    → p ≢ null
    → (scale sys p n tp).0 ≡ done
unfolding scale scaleup scaledown
scale-done sys p n tp g live = ground (
  arith,
  create_from-done sys (n - tp.count) tp.count (lock tp) g,
  join_if-done sys (tp.count - n) (tp.count - (tp.count - n))
      (cancel_down sys (tp.count - n) (tp.count - (tp.count - n)) (lock tp)) g
      (cancel_down-done sys (tp.count - n) (tp.count - (tp.count - n)) (lock tp) g),
)

-- If the system grants every request, for numbers below 2 ^ 16, `scale` succeeds, and the pool has
-- the number of threads that was asked for.
pub scale-granted :
    (sys : System) (p : Ptr) (n : ℕ) (tp : Threadpool)
    → Grants sys
    → p ≢ null
    → n < 2 ^ 16
    → tp.count < 2 ^ 16
    → ((scale sys p n tp).0 ≡ done) × ((scale sys p n tp).1.count ≡ n)
scale-granted sys p n tp g live small small' =
    let succeeds = scale-done sys p n tp g live in
    (succeeds, (scale-Moved sys p n tp live small small').reached succeeds)
