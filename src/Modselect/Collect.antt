-- ===== src/Modselect/Collect.antt =====
-- The first loop of `_tick` in pcaio/modselect.c: which events it takes from the ring, and what it
-- asks `select` about.
use pcaio.Prelude.{
  ℕ, zero, suc, ◌≤◌, ◌≡◌, refl, ap, subst, ◌∙◌, ◌≢◌, ◌⊎◌, inl, inr, Bool, true, false, ◌&&◌, ◌||◌,
  Option, some, List, [], ◌∷◌, ◌++◌, arith, ◌==◌, Ptr, Status, done, failed, length,
}
use pcaio.RingT
use pcaio.RingT.{Ring}
use pcaio.RingT.Refine.{IsRing}
use pcaio.RingT.Pop.{pop-oldest, pop_empty}
use pcaio.IoEvent.{IoEvents}
use pcaio.Modio.{ioin, ioout}
use pcaio.Modselect.{FdSets, add_event, collected, collect_one, collect, wants}

-- Each of these events waits for something.
abbrev pub AllWaiting : IoEvents → List Ptr → Type 0
AllWaiting io [] = Unit {0}
AllWaiting io (e ∷ es) = (io.events e ≢ 0) × AllWaiting io es

-- The sets that stand for a list of events.
unfoldable pub add_all : IoEvents → List Ptr → FdSets → FdSets
add_all io [] sets = sets
add_all io (e ∷ es) sets = add_all io es (add_event io e sets)

-- `ys` is what `swap` has room for of the events `ys ++ zs`: all, or as many as fit.
abbrev pub Fits : ℕ → List Ptr → List Ptr → Type 0
Fits n ys zs = (length ys ≤ n) × ((zs ≡ []) ⊎ (length ys ≡ n))

collect-cons :
    (n : ℕ) (io : IoEvents) (sets : FdSets) (r : Ring) (e : Ptr)
    → (RingT.pop r).0 ≡ done
    → (RingT.pop r).1 ≡ some e
    → io.events e ≢ 0
    → collect (suc n) io sets r ≡ collect_one e (collect n io (add_event io e sets) (RingT.pop r).2)
unfolding collect
collect-cons n io sets r e popped one waits =
    let some_event : (io.events e == 0) ≡ false = ground arith in
    rw (collect, popped, one, some_event) refl

collect-empty :
    (n : ℕ) (io : IoEvents) (sets : FdSets) (r : Ring)
    → (RingT.pop r).0 ≡ failed
    → (RingT.pop r).2 ≡ r
    → collect (suc n) io sets r ≡ collected [] sets r
unfolding collect
collect-empty n io sets r popped same = rw (collect, popped, same) refl

-- The first loop takes the oldest events, in order, and leaves the others in the ring.
pub collect-takes :
    (n : ℕ) (ys zs : List Ptr) (k : ℕ) (io : IoEvents) (sets : FdSets) (r : Ring)
    → IsRing k r (ys ++ zs)
    → AllWaiting io ys
    → Fits n ys zs
    → (r1 : Ring) × (collect n io sets r ≡ collected ys (add_all io ys sets) r1) × IsRing k r1 zs
unfolding collect add_all
collect-takes zero [] zs k io sets r is w fits = (r, refl, is)
collect-takes zero (y ∷ ys) zs k io sets r is w fits = absurd (omega arith)
collect-takes (suc n) [] zs k io sets r is w (few, inl none_left) =
    let nothing : IsRing k r [] = subst (IsRing k r) none_left is in
    let empty = pop_empty nothing in
    (
      r,
      collect-empty n io sets r (ap (λ (o : Status × Option Ptr × Ring). o.0) empty)
          (ap (λ (o : Status × Option Ptr × Ring). o.2) empty),
      is,
    )
collect-takes (suc n) [] zs k io sets r is w (few, inr full) = absurd (omega arith)
collect-takes (suc n) (y ∷ ys) zs k io sets r is w fits =
    let (popped, one, rest) = pop-oldest is in
    let (r1, e, left) =
      collect-takes n ys zs k io (add_event io y sets) (RingT.pop r).2 rest w.1
        (ground (arith, fits)) in
    (r1, collect-cons n io sets r y popped one w.0 ∙ ap (collect_one y) e, left)

-- Whether one of the events is for the descriptor `fd`, and passes a test.
abbrev pub some_event : (Ptr → Bool) → IoEvents → (fd : ℕ) → List Ptr → Bool
some_event test io fd [] = false
some_event test io fd (e ∷ es) = (io.fd e == fd) && test e || some_event test io fd es

-- `select` is asked about exactly these descriptors: to read where an event wants IOIN, to write
-- where one wants IOOUT, and for exceptions wherever there is an event.
pub add_all-some_event :
    (io : IoEvents) (es : List Ptr) (sets : FdSets) (fd : ℕ)
    → ((add_all io es sets).rfds fd
        ≡ (some_event (λ e. wants (io.events e) ioin) io fd es || sets.rfds fd))
      × ((add_all io es sets).wfds fd
          ≡ (some_event (λ e. wants (io.events e) ioout) io fd es || sets.wfds fd))
      × ((add_all io es sets).efds fd ≡ (some_event (λ e. true) io fd es || sets.efds fd))
unfolding add_all add_event
add_all-some_event io [] sets fd = (refl, refl, refl)
add_all-some_event io (e ∷ es) sets fd =
    let (r, w, x) = add_all-some_event io es (add_event io e sets) fd in
    (ground (arith, r), ground (arith, w), ground (arith, x))
