-- ===== src/Modio/Tests.antt =====
-- Runs of the calls of pcaio/modio.c against a few answers of the system.
use pcaio.Prelude.{◌≡◌, ◌+◌, ◌≢◌, inl, refl, true, false, none, some, [], ◌∷◌, arith, null, done}
use pcaio.Modio.{
  Round, result, relaxes, waits, ioin, ioout, eagain, einprogress, read, write, accept, accept4,
  writev, connect, retryable, Modio,
}
use pcaio.Modio.Retry.{AllBlocked, calls-return, connect_never_waits}
use pcaio.Master.{State}
use pcaio.Samples.{queue0, list0, world_of}

-- A call that would block, and one that returns 12.
abbrev blocks : Round
blocks = record { ret = none; errno = eagain; await = done }

abbrev returns : Round
returns = record { ret = some 12; errno = 0; await = done }

blocks-retryable : retryable eagain ≡ true
unfolding retryable
blocks-retryable = refl

one_blocked : AllBlocked (blocks ∷ [])
one_blocked = ((refl, blocks-retryable, refl), tt)

calls-return_example :
    (read 1 4 (blocks ∷ returns ∷ []) ≡ (result (some 12), relaxes 0 ∷ waits 4 ioin ∷ []))
    × (accept 1 4 (blocks ∷ returns ∷ []) ≡ (result (some 12), relaxes 0 ∷ waits 4 ioin ∷ []))
    × (accept4 1 4 (blocks ∷ returns ∷ []) ≡ (result (some 12), relaxes 0 ∷ waits 4 ioin ∷ []))
    × (write 1 4 (blocks ∷ returns ∷ []) ≡ (result (some 12), relaxes 0 ∷ waits 4 ioout ∷ []))
    × (writev 1 4 (blocks ∷ returns ∷ []) ≡ (result (some 12), relaxes 0 ∷ waits 4 ioout ∷ []))
calls-return_example =
    calls-return 1 4 (blocks ∷ []) returns [] (omega arith) one_blocked (inl (12, refl, refl, refl))
      (inl (12, refl, refl, refl))

-- A connection in progress.
abbrev in_progress : Round
in_progress = record { ret = none; errno = einprogress; await = done }

in_progress-retryable : retryable einprogress ≡ true
unfolding retryable
in_progress-retryable = refl

connect_never_waits_example :
    (connect 1 4 (in_progress ∷ []) ≡ (result none, relaxes 0 ∷ []))
    × (connect 1 4 (in_progress ∷ []) ≢ write 1 4 (in_progress ∷ []))
connect_never_waits_example =
    connect_never_waits 1 4 in_progress [] (omega arith) (omega arith) refl in_progress-retryable

abbrev unused : Modio
unused = record { iomod = null; default_module = null; freed = [] }

-- All places for modules are taken.
abbrev all_taken : State (Unit {0})
all_taken = record {
  workers = 0;
  cancel = false;
  world = world_of queue0 list0;
  pool = record {
    count = 0;
    threads = λ i. 0;
    mutex = false;
    cancelled = [];
    joined = [];
    errno = 0;
    ready = false;
  };
  modulescount = 8;
  modules = λ i. 30 + i;
  module_flags = λ m. 0;
  memory = tt;
}
