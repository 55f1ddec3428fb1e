-- ===== src/Threadpool/Loops.antt =====
-- The loops of `_scaleup` and `_scaledown` in pcaio/threadpool.c, whatever the system answers.
use pcaio.Prelude.{
  ℕ, zero, suc, ◌+◌, ◌-◌, ◌^◌, ◌≤◌, ◌<◌, ◌≡◌, refl, List, [], ◌∷◌, ◌++◌, arith, Status, done, inl,
  inr, ◌∙◌, ap, ◌⊎◌, update, ◌%◌,
}
use pcaio.Threadpool.{
  Tid, Threadpool, System, Created, thread, error, create_from, cancel_down, join_down,
}

-- The threads at the indices from `target` on, `left` of them, lowest first.
abbrev pub slice : (ℕ → Tid) → (left target : ℕ) → List Tid
slice threads zero target = []
slice threads (suc left) target = threads target ∷ slice threads left (target + 1)

Created-cases : (c : Created) → ((t : Tid) × (c ≡ thread t)) ⊎ ((e : ℕ) × (c ≡ error e))
Created-cases (thread t) = inl (t, refl)
Created-cases (error e) = inr (e, refl)

pub ℕ-cases : (n : ℕ) → (n ≡ zero) ⊎ ((m : ℕ) × (n ≡ suc m))
ℕ-cases zero = inl refl
ℕ-cases (suc m) = inr (m, refl)

-- What `create_from` leaves: as many threads as it says, the older ones where they were.
pub record Grown (before : Threadpool) (i left : ℕ) (out : Status × Threadpool) : Type 0 where
  pub at_least : before.count ≤ out.1.count
  pub at_most : out.1.count ≤ before.count + left
  pub complete : out.0 ≡ done → out.1.count ≡ before.count + left
  pub older : (j : ℕ) → j < i → out.1.threads j ≡ before.threads j
  pub beyond : (j : ℕ) → i + left ≤ j → out.1.threads j ≡ before.threads j
  pub nobody : (out.1.cancelled ≡ before.cancelled) × (out.1.joined ≡ before.joined)

pub create_from-Grown :
    (sys : System) (left i : ℕ) (tp : Threadpool)
    → tp.count + left < 2 ^ 16
    → Grown tp i left (create_from sys left i tp)
unfolding create_from
create_from-Grown sys zero i tp small = record {
  at_least = omega arith;
  at_most = omega arith;
  complete = λ _. omega arith;
  older = λ j h. refl;
  beyond = λ j h. refl;
  nobody = (refl, refl);
}
create_from-Grown sys (suc left) i tp small = elim (Created-cases (sys.create i)) [
  | inl (t, e) ↦
      let next = record tp { threads = update tp.threads i t; count = (tp.count + 1) % 2 ^ 16 } in
      let one_more : next.count ≡ tp.count + 1 = omega arith in
      let rest = create_from-Grown sys left (i + 1) next (omega arith) in
      rw (e, create_from)
        (record {
          at_least = omega (arith, rest.at_least);
          at_most = omega (arith, rest.at_most);
          complete = λ s. omega (arith, rest.complete s);
          older = λ j h. rest.older j (omega arith) ∙ ground arith;
          beyond = λ j h. rest.beyond j (omega arith) ∙ ground arith;
          nobody = rest.nobody;
        })
  | inr (c, e) ↦
      rw (e, create_from)
        (record {
          at_least = omega arith;
          at_most = omega arith;
          complete = λ s. cc;
          older = λ j h. refl;
          beyond = λ j h. refl;
          nobody = (refl, refl);
        })
]

-- What the two loops of `_scaledown` leave.
pub record Shrunk (before : Threadpool) (left target : ℕ) (out : Status × Threadpool) : Type 0 where
  pub at_most : out.1.count ≤ before.count
  pub at_least : before.count ≤ out.1.count + left
  pub complete :
      out.0 ≡ done
      → (out.1.count + left ≡ before.count)
        × (out.1.joined ≡ slice before.threads left target ++ before.joined)
  pub threads : out.1.threads ≡ before.threads
  pub cancelled : out.1.cancelled ≡ before.cancelled

slice-snoc :
    (threads : ℕ → Tid) (left target : ℕ) (rest : List Tid)
    → slice threads left target ++ (threads (target + left) ∷ rest)
      ≡ slice threads (suc left) target ++ rest
slice-snoc threads zero target rest =
    let e : target + 0 ≡ target = omega arith in ap (λ (i : ℕ). threads i ∷ rest) e
slice-snoc threads (suc left) target rest =
    let e : target + suc left ≡ target + 1 + left = omega arith in
    ap (λ l. threads target ∷ l)
      (ap (λ (i : ℕ). slice threads left (target + 1) ++ (threads i ∷ rest)) e
        ∙ slice-snoc threads left (target + 1) rest)

pub join_down-Shrunk :
    (sys : System) (left target : ℕ) (tp : Threadpool)
    → left ≤ tp.count
    → tp.count < 2 ^ 16
    → Shrunk tp left target (join_down sys left target tp)
unfolding join_down
join_down-Shrunk sys zero target tp h small = record {
  at_most = omega arith;
  at_least = omega arith;
  complete = λ _. (omega arith, refl);
  threads = refl;
  cancelled = refl;
}
join_down-Shrunk sys (suc left) target tp h small = elim (ℕ-cases (sys.join (target + left))) [
  | inl e ↦
      let next = record tp {
        joined = tp.threads (target + left) ∷ tp.joined;
        count = (tp.count + (2 ^ 16 - 1)) % 2 ^ 16;
      } in
      let one_less : next.count + 1 ≡ tp.count = omega arith in
      let rest = join_down-Shrunk sys left target next (omega arith) (omega arith) in
      rw (e, join_down)
        (record {
          at_most = omega (arith, rest.at_most);
          at_least = omega (arith, rest.at_least);
          complete = λ s. (
            omega (arith, rest.complete s),
            (rest.complete s).1 ∙ slice-snoc tp.threads left target tp.joined,
          );
          threads = rest.threads;
          cancelled = rest.cancelled;
        })
  | inr (c, e) ↦
      rw (e, join_down)
        (record {
          at_most = omega arith;
          at_least = omega arith;
          complete = λ s. cc;
          threads = refl;
          cancelled = refl;
        })
]

-- What the first loop of `_scaledown` leaves: threads are asked to stop, and nothing else.
pub record Asked (before : Threadpool) (left target : ℕ) (out : Status × Threadpool) : Type 0 where
  pub count : out.1.count ≡ before.count
  pub threads : out.1.threads ≡ before.threads
  pub joined : out.1.joined ≡ before.joined
  pub complete :
      out.0 ≡ done → out.1.cancelled ≡ slice before.threads left target ++ before.cancelled

pub cancel_down-Asked :
    (sys : System) (left target : ℕ) (tp : Threadpool)
    → Asked tp left target (cancel_down sys left target tp)
unfolding cancel_down
cancel_down-Asked sys zero target tp = record {
  count = refl;
  threads = refl;
  joined = refl;
  complete = λ _. refl;
}
cancel_down-Asked sys (suc left) target tp = elim (ℕ-cases (sys.cancel (target + left))) [
  | inl e ↦
      let next = record tp { cancelled = tp.threads (target + left) ∷ tp.cancelled } in
      let rest = cancel_down-Asked sys left target next in
      rw (e, cancel_down)
        (record {
          count = rest.count;
          threads = rest.threads;
          joined = rest.joined;
          complete = λ s. rest.complete s ∙ slice-snoc tp.threads left target tp.cancelled;
        })
  | inr (c, e) ↦
      rw (e, cancel_down)
        (record { count = refl; threads = refl; joined = refl; complete = λ s. cc })
]
