-- ===== src/Modio/Retry.antt =====
-- The loops of pcaio/modio.c.
use pcaio.Prelude.{
  ℕ, zero, suc, ◌≡◌, refl, ap, ◌≢◌, ◌⊎◌, true, false, none, some, List, [], ◌∷◌, ◌++◌, arith, null,
  done, failed, Ptr,
}
use pcaio.Modio.{
  Round, Reply, result, error, gave_up, Event, relaxes, waits, retry, retryable, minus_one, ioin,
  ioout, read, write, accept, accept4, writev, connect, Resolved, found, again, unknown, resolve,
}

-- All these calls would have blocked, and each wait succeeded.
abbrev pub AllBlocked : List Round → Type 0
AllBlocked [] = Unit {0}
AllBlocked (r ∷ rs) =
    ((r.ret ≡ none) × (retryable r.errno ≡ true) × (r.await ≡ done)) × AllBlocked rs

-- One wait for each of these rounds.
abbrev pub waits_for : (fd events : ℕ) → List Round → List Event
waits_for fd events [] = []
waits_for fd events (r ∷ rs) = waits fd events ∷ waits_for fd events rs

-- What the last round comes to: the result, an error that is not retried, or a wait that fails.
abbrev pub Final : (fd events : ℕ) → Round → Reply → List Event → Type 0
Final fd events r reply after =
    ((n : ℕ) × (r.ret ≡ some n) × (reply ≡ result (some n)) × (after ≡ []))
    ⊎ (((r.ret ≡ none) × (retryable r.errno ≡ false) × (reply ≡ error r.errno) × (after ≡ []))
        ⊎ ((r.ret ≡ none)
            × (retryable r.errno ≡ true)
            × (r.await ≡ failed)
            × (reply ≡ gave_up)
            × (after ≡ waits fd events ∷ [])))

retry-Final :
    (iomod : Ptr) (fd events : ℕ) (r : Round) (later : List Round) (reply : Reply)
    (after : List Event)
    → iomod ≢ null
    → Final fd events r reply after
    → retry iomod fd events (r ∷ later) ≡ (reply, after)
unfolding retry
retry-Final iomod fd events r later reply after n last = ground arith

-- The loop calls again after each wait that succeeds, waits for its own descriptor and event once
-- for each call that would have blocked, and returns the first result, the first error that is not
-- retried, or that a wait failed.
pub retry-returns :
    (iomod : Ptr) (fd events : ℕ) (blocked : List Round) (r : Round) (later : List Round)
    (reply : Reply) (after : List Event)
    → iomod ≢ null
    → AllBlocked blocked
    → Final fd events r reply after
    → retry iomod fd events (blocked ++ (r ∷ later)) ≡ (reply, waits_for fd events blocked ++ after)
unfolding retry
retry-returns iomod fd events [] r later reply after n all last =
    retry-Final iomod fd events r later reply after n last
retry-returns iomod fd events (b ∷ blocked) r later reply after n all last =
    ground (arith, retry-returns iomod fd events blocked r later reply after n all.1 last)

module _ (iomod fd : ℕ) (blocked : List Round) (r : Round) (later : List Round) {reply : Reply}
    {after : List Event} (installed : iomod ≢ null) (all : AllBlocked blocked) where
  -- The calls that wait for input.
  input-returns :
      Final fd ioin r reply after
      → let out : Reply × List Event = (reply, relaxes 0 ∷ (waits_for fd ioin blocked ++ after)) in
        (read iomod fd (blocked ++ (r ∷ later)) ≡ out)
        × (accept iomod fd (blocked ++ (r ∷ later)) ≡ out)
        × (accept4 iomod fd (blocked ++ (r ∷ later)) ≡ out)
  unfolding read accept accept4
  input-returns last =
      let e = retry-returns iomod fd ioin blocked r later reply after installed all last in
      (
        ap (λ (o : Reply × List Event). (o.0, relaxes 0 ∷ o.1)) e,
        ap (λ (o : Reply × List Event). (o.0, relaxes 0 ∷ o.1)) e,
        ap (λ (o : Reply × List Event). (o.0, relaxes 0 ∷ o.1)) e,
      )

  -- The calls that wait for output.
  output-returns :
      Final fd ioout r reply after
      → let out : Reply × List Event = (reply, relaxes 0 ∷ (waits_for fd ioout blocked ++ after)) in
        (write iomod fd (blocked ++ (r ∷ later)) ≡ out)
        × (writev iomod fd (blocked ++ (r ∷ later)) ≡ out)
  unfolding write writev
  output-returns last =
      let e = retry-returns iomod fd ioout blocked r later reply after installed all last in
      (
        ap (λ (o : Reply × List Event). (o.0, relaxes 0 ∷ o.1)) e,
        ap (λ (o : Reply × List Event). (o.0, relaxes 0 ∷ o.1)) e,
      )

-- When the module is in use, `readA`, `acceptA` and `accept4A`, and `writeA` and `writevA`, give up
-- the processor once, and then call until the call does not block: for each call that would have
-- blocked they wait until their descriptor can be read, or can be written, and they return the first
-- result, the first error that is not retried, or that a wait failed.
pub calls-return :
    (iomod fd : ℕ) (blocked : List Round) (r : Round) (later : List Round) {reply reply' : Reply}
    {after after' : List Event}
    → iomod ≢ null
    → AllBlocked blocked
    → Final fd ioin r reply after
    → Final fd ioout r reply' after'
    → let given = blocked ++ (r ∷ later) in
      let out : Reply × List Event = (reply, relaxes 0 ∷ (waits_for fd ioin blocked ++ after)) in
      let out' : Reply × List Event =
        (reply', relaxes 0 ∷ (waits_for fd ioout blocked ++ after')) in
      (read iomod fd given ≡ out)
      × (accept iomod fd given ≡ out)
      × (accept4 iomod fd given ≡ out)
      × (write iomod fd given ≡ out')
      × (writev iomod fd given ≡ out')
calls-return iomod fd blocked r later installed all last last' =
    let (a, b, c) = input-returns iomod fd blocked r later installed all last in
    let (d, e) = output-returns iomod fd blocked r later installed all last' in (a, b, c, d, e)

-- When the module is in use, on a valid descriptor whose `connect` is still in progress,
-- `connectA` returns -1 without a wait, which is not what the loop of `writeA` does.
pub connect_never_waits :
    (iomod fd : ℕ) (r : Round) (rounds : List Round)
    → fd ≢ minus_one
    → iomod ≢ null
    → r.ret ≡ none
    → retryable r.errno ≡ true
    → (connect iomod fd (r ∷ rounds) ≡ (result none, relaxes 0 ∷ []))
      × (connect iomod fd (r ∷ rounds) ≢ write iomod fd (r ∷ rounds))
unfolding connect write
connect_never_waits iomod fd r rounds valid installed blocked soft = (ground arith, ground arith)

-- This many answers `EAI_AGAIN`.
abbrev pub agains : ℕ → List Resolved
agains zero = []
agains (suc n) = again ∷ agains n

-- `getaddrinfoA` gives up the processor once for each answer that asks to try again, and returns 0
-- on the first success and -1 on the first other error.
pub resolve-returns :
    (n e : ℕ) (later : List Resolved)
    → (resolve (agains n ++ (found ∷ later)) ≡ (some done, n))
      × (resolve (agains n ++ (unknown e ∷ later)) ≡ (some failed, n))
unfolding resolve
resolve-returns zero e later = (refl, refl)
resolve-returns (suc n) e later =
    let (good, bad) = resolve-returns n e later in (ground (arith, good), ground (arith, bad))
