-- ===== src/Threadpool/Scale.antt =====
-- What a call of `threadpool_scale` (pcaio/threadpool.c) leaves, on every branch.
use pcaio.Prelude.{
  ℕ, ◌+◌, ◌-◌, ◌^◌, ◌≤◌, ◌<◌, ◌≡◌, refl, ◌≢◌, ◌++◌, arith, Ptr, null, Status, done, failed, ltb,
  ap₂, ◌⊎◌, inl, inr, ◌∙◌, sym, is_null, true, false,
}
use pcaio.Threadpool.{Tid, Threadpool, System, scaleup, join_if, scaledown, scale, lock, unlock}
use pcaio.Threadpool.Loops.{
  slice, Grown, Asked, create_from-Grown, join_down-Shrunk, cancel_down-Asked,
}

-- What is left of a pool that was asked for `n` threads.
pub record Moved (n : ℕ) (before : Threadpool) (out : Status × Threadpool) : Type 0 where
  pub reached : out.0 ≡ done → out.1.count ≡ n
  pub no_overshoot : (before.count ≤ n → out.1.count ≤ n) × (n ≤ before.count → n ≤ out.1.count)
  pub no_undershoot :
      (before.count ≤ n → before.count ≤ out.1.count)
      × (n ≤ before.count → out.1.count ≤ before.count)
  pub kept : (j : ℕ) → j < before.count → out.1.threads j ≡ before.threads j
  pub in_bounds : (j : ℕ) → before.count ≤ j → n ≤ j → out.1.threads j ≡ before.threads j
  pub stopped :
      out.0 ≡ done
      → n ≤ before.count
      → (out.1.cancelled ≡ slice before.threads (before.count - n) n ++ before.cancelled)
        × (out.1.joined ≡ slice before.threads (before.count - n) n ++ before.joined)
  pub released : before.mutex ≡ false → out.1.mutex ≡ false

Grown-Moved :
    (n : ℕ) (tp : Threadpool) (out : Status × Threadpool)
    → tp.count < n
    → Grown (lock tp) tp.count (n - tp.count) out
    → Moved n tp (unlock out)
Grown-Moved n tp out h grown = record {
  reached = λ s. let e : out.1.count ≡ tp.count + (n - tp.count) = grown.complete s in omega arith;
  no_overshoot = (λ le. omega (arith, grown.at_most), λ le. omega (arith, grown.at_least));
  no_undershoot = (λ le. omega (arith, grown.at_least), λ le. omega arith);
  kept = grown.older;
  in_bounds = λ j h1 h2. grown.beyond j (omega arith);
  stopped = λ s h1. absurd (omega arith);
  released = λ _. refl;
}

-- Both loops of `_scaledown`, one after the other.
Asked-Moved :
    (sys : System) (n : ℕ) (tp : Threadpool) (out : Status × Threadpool)
    → n < tp.count
    → tp.count < 2 ^ 16
    → Asked (lock tp) (tp.count - n) n out
    → Moved n tp (unlock (join_if sys (tp.count - n) n out))
unfolding join_if
Asked-Moved sys n tp (done, mid) h small asked =
    let shrunk =
      join_down-Shrunk sys (tp.count - n) n mid (omega (arith, asked.count))
        (omega (arith, asked.count)) in
    record {
      reached = λ s. let (e, _) = shrunk.complete s in omega (arith, e, asked.count);
      no_overshoot =
          (λ le. absurd (omega arith), λ le. omega (arith, shrunk.at_least, asked.count));
      no_undershoot =
          (λ le. absurd (omega arith), λ le. omega (arith, shrunk.at_most, asked.count));
      kept = λ j _. cc (shrunk.threads, asked.threads);
      in_bounds = λ j _ _. cc (shrunk.threads, asked.threads);
      stopped = λ s _. (
        shrunk.cancelled ∙ asked.complete refl,
        (shrunk.complete s).1
            ∙ ap₂ (λ (t : ℕ → Tid) j. slice t (tp.count - n) n ++ j) asked.threads asked.joined,
      );
      released = λ _. refl;
    }
Asked-Moved sys n tp (failed, mid) h small asked = record {
  reached = λ s. cc;
  no_overshoot = (λ le. absurd (omega arith), λ le. omega (arith, asked.count));
  no_undershoot = (λ le. absurd (omega arith), λ le. omega (arith, asked.count));
  kept = λ j _. cc (asked.threads);
  in_bounds = λ j _ _. cc (asked.threads);
  stopped = λ s _. cc;
  released = λ _. refl;
}

scaledown-Moved :
    (sys : System) (n : ℕ) (tp : Threadpool)
    → n < tp.count
    → tp.count < 2 ^ 16
    → Moved n tp (scaledown sys (tp.count - n) tp)
unfolding scaledown
scaledown-Moved sys n tp h small =
    let fits : ltb tp.count (tp.count - n) ≡ false = ground arith in
    let at : tp.count - (tp.count - n) ≡ n = omega arith in
    rw (fits, at)
      (Asked-Moved sys n tp _ h small (cancel_down-Asked sys (tp.count - n) n (lock tp)))

-- Every call ends in such a pool.
pub scale-Moved :
    (sys : System) (p : Ptr) (n : ℕ) (tp : Threadpool)
    → p ≢ null
    → n < 2 ^ 16
    → tp.count < 2 ^ 16
    → Moved n tp (scale sys p n tp)
unfolding scale scaleup
scale-Moved sys p n tp live small small' = elim (order n tp.count) [
  | inl less ↦
      let test : ltb n tp.count ≡ true = ground arith in
      rw (given, test) (scaledown-Moved sys n tp less small')
  | inr (inl more) ↦
      let test : ltb n tp.count ≡ false = ground arith in
      let test' : ltb tp.count n ≡ true = ground arith in
      rw (given, test, test')
        (Grown-Moved n tp _ more
          (create_from-Grown sys (n - tp.count) tp.count (lock tp) (omega arith)))
  | inr (inr same) ↦
      let test : ltb n tp.count ≡ false = ground arith in
      let test' : ltb tp.count n ≡ false = ground arith in
      rw (given, test, test')
        (record {
          reached = λ _. sym same;
          no_overshoot = (λ le. omega arith, λ le. omega arith);
          no_undershoot = (λ le. omega arith, λ le. omega arith);
          kept = λ j _. refl;
          in_bounds = λ j _ _. refl;
          stopped =
              λ _ _. let none_left : tp.count - n ≡ 0 = omega arith in rw none_left (refl, refl);
          released = λ free. free;
        })
]
  where
    given : is_null p ≡ false
    given = ground arith

    order : (a b : ℕ) → (a < b) ⊎ ((b < a) ⊎ (a ≡ b))
    order a b = omega arith
