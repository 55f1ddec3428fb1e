-- ===== src/Worker/Needs.antt =====
-- What the tasks of the worker of pcaio/worker.c do, turn by turn, when each of them gives way some
-- times and then ends.
use pcaio.Prelude.{
  ℕ, zero, suc, ◌+◌, ◌-◌, ◌≡◌, refl, ◌∙◌, subst, false, none, some, List, [], ◌∷◌, ◌++◌, arith,
  ◌==◌, if◌then◌else◌, Ptr, update, Tid, has, has-append, has-remove, nil_of_has, Distinct,
  Distinct-snoc, Bool-cases, inl, inr,
}
use pcaio.World.{World}
use pcaio.Task.Life.{release}
use pcaio.Worker.{Round, running, turn, set_context}
use pcaio.Worker.Plan.{
  Act, Behaves, IsPlain, Served, queue_after, alive_after, freed_after, turn-yields, turn-ends,
}

-- Task `x` gives way `need x` times more, and then its function returns `code x`.
abbrev pub next_act : (code need : Ptr → ℕ) → Ptr → Act
next_act code need x = if need x == 0 then some (code x) else none

abbrev pub next_need : (need : Ptr → ℕ) → Ptr → Ptr → ℕ
next_need need x = update need x (need x - 1)

-- What the tasks `xs` do in the first `n` turns, and which of them end in these, in order.
unfoldable pub plan : (n : ℕ) → (code need : Ptr → ℕ) → List Ptr → List Act
plan zero code need xs = []
plan (suc n) code need [] = []
plan (suc n) code need (x ∷ xs) =
    next_act code need x ∷ plan n code (next_need need x) (queue_after (next_act code need x) x xs)

abbrev pub and_ended : Act → Ptr → List Ptr → List Ptr
and_ended none x es = es
and_ended (some code) x es = x ∷ es

unfoldable pub ended_in : (n : ℕ) → (code need : Ptr → ℕ) → List Ptr → List Ptr
ended_in zero code need xs = []
ended_in (suc n) code need [] = []
ended_in (suc n) code need (x ∷ xs) =
    and_ended (next_act code need x) x
      (ended_in n code (next_need need x) (queue_after (next_act code need x) x xs))

-- How many turns they take together.
unfoldable pub total : (need : Ptr → ℕ) → List Ptr → ℕ
total need [] = 0
total need (x ∷ xs) = need x + 1 + total need xs

-- The rounds behave so, one after the other.
abbrev pub AllBehave : List Act → List Round → Type 0
AllBehave [] rs = rs ≡ []
AllBehave (o ∷ os) [] = ⊥
AllBehave (o ∷ os) (r ∷ rs) = Behaves o r × AllBehave os rs

pub total-append :
    (need : Ptr → ℕ) (xs ys : List Ptr) → total need (xs ++ ys) ≡ total need xs + total need ys
unfolding total
total-append need [] ys = omega arith
total-append need (x ∷ xs) ys = omega (arith, total-append need xs ys)

pub total-update :
    (need : Ptr → ℕ) (x n : ℕ) (xs : List Ptr)
    → has x xs ≡ false
    → total (update need x n) xs ≡ total need xs
unfolding total
total-update need x n [] out = refl
total-update need x n (y ∷ ys) out = ground (arith, total-update need x n ys)

-- Each turn takes one off the total.
pub total-turn :
    (code need : Ptr → ℕ) (x : Ptr) (xs : List Ptr)
    → has x xs ≡ false
    → total need (x ∷ xs) ≡ suc (total (next_need need x) (queue_after (next_act code need x) x xs))
unfolding total
total-turn code need x xs out = elim (Bool-cases (need x == 0)) [
  | inl last ↦ rw last (ground (arith, total-update need x (need x - 1) xs out))
  | inr more ↦ rw more (
      ground (
        arith,
        total-append (next_need need x) xs (x ∷ []),
        total-update need x (need x - 1) xs out,
      ))
]

-- The tasks `xs` wait, and they are all that are alive.
pub record IsWorking (w : World) (xs zs : List Ptr) : Type 0 where
  pub plain : IsPlain w xs zs
  pub same : (t : Ptr) → has t zs ≡ has t xs

-- A worker that stores its context changes nothing of that.
pub set_context-IsWorking :
    (err : ℕ) (thread : Tid) (landing : Ptr) (w : World) {xs zs : List Ptr}
    → IsWorking w xs zs
    → IsWorking (set_context err thread landing w) xs zs
unfolding set_context
set_context-IsWorking err thread landing w p = record {
  plain = record {
    queue = p.plain.queue;
    alive = p.plain.alive;
    lives = p.plain.lives;
    free_to_run = p.plain.free_to_run;
    no_hook = p.plain.no_hook;
    no_callback = p.plain.no_callback;
  };
  same = p.same;
}

-- One turn.
turn-acts :
    (thread : Tid) (o : Act) (r : Round) (w : World) {x : Ptr} {xs zs : List Ptr}
    → Behaves o r
    → IsPlain w (x ∷ xs) zs
    → (v : World) × (turn thread r w ≡ running v) × Served o x xs zs w v
turn-acts thread none r w g p = turn-yields thread r w g p
turn-acts thread (some code) r w g p = turn-ends thread r w code g p

same-after :
    (o : Act) (x : Ptr) (xs zs : List Ptr)
    → has x xs ≡ false
    → Distinct zs
    → ((t : Ptr) → has t zs ≡ has t (x ∷ xs))
    → (t : Ptr) → has t (alive_after o x zs) ≡ has t (queue_after o x xs)
same-after none x xs zs out d same t = ground (arith, same t, has-append t xs (x ∷ []))
same-after (some code) x xs zs out d same t = ground (arith, same t, has-remove t x zs d)

pub turn-works :
    (thread : Tid) (o : Act) (r : Round) (w : World) {x : Ptr} {xs zs : List Ptr}
    → Behaves o r
    → IsWorking w (x ∷ xs) zs
    → (v : World) × (turn thread r w ≡ running v)
      × Served o x xs zs w v
      × IsWorking v (queue_after o x xs) (alive_after o x zs)
turn-works thread o r w {x} {xs} {zs} g p =
    let (v, turned, served) = turn-acts thread o r w g p.plain in
    (
      v,
      turned,
      served,
      record {
        plain = served.plain;
        same = same-after o x xs zs p.plain.queue.distinct.0 p.plain.alive.distinct p.same;
      },
    )

-- What is freed in a turn, and then in the others.
pub release-after :
    (o : Act) (x : Ptr) (es : List Ptr) (w : World)
    → release w.stack es (freed_after o x w) ≡ release w.stack (and_ended o x es) w.freed
unfolding release
release-after none x es w = refl
release-after (some code) x es w = refl

Distinct-after :
    (o : Act) (x : Ptr) (xs : List Ptr) → Distinct (x ∷ xs) → Distinct (queue_after o x xs)
Distinct-after none x xs d = Distinct-snoc x xs d.1 d.0
Distinct-after (some code) x xs d = d.1

ended-turn :
    (o : Act) (x : Ptr) (xs es : List Ptr)
    → Distinct (x ∷ xs)
    → Distinct es
    → ((t : Ptr) → has t es ≡ has t (queue_after o x xs))
    → Distinct (and_ended o x es) × ((t : Ptr) → has t (and_ended o x es) ≡ has t (x ∷ xs))
ended-turn none x xs es d d' same = (d', λ t. ground (arith, same t, has-append t xs (x ∷ [])))
ended-turn (some code) x xs es d d' same = ((same x ∙ d.0, d'), λ t. ground (arith, same t))

-- In as many turns as the tasks take together each of them ends, once.
pub ended-members :
    (n : ℕ) (code need : Ptr → ℕ) (xs : List Ptr)
    → Distinct xs
    → total need xs ≡ n
    → Distinct (ended_in n code need xs) × ((t : Ptr) → has t (ended_in n code need xs) ≡ has t xs)
unfolding ended_in total
ended-members zero code need [] d e = (tt, λ t. refl)
ended-members zero code need (x ∷ xs) d e = absurd (omega arith)
ended-members (suc n) code need [] d e = absurd (omega arith)
ended-members (suc n) code need (x ∷ xs) d e =
    let o = next_act code need x in
    let es = ended_in n code (next_need need x) (queue_after o x xs) in
    let (d', same) =
      ended-members n code (next_need need x) (queue_after o x xs) (Distinct-after o x xs d)
        (omega (arith, total-turn code need x xs d.0)) in
    ended-turn o x xs es d d' same

pub none_alive : {w : World} {zs : List Ptr} → IsWorking w [] zs → IsWorking w [] []
none_alive {w} {zs} p = subst (IsWorking w []) (nil_of_has zs p.same) p
