-- ===== src/Modio.antt =====
-- pcaio/modio.c: the calls that wait for input or output without blocking their thread.
pub mod Retry
pub mod Use
mod Tests
use pcaio.Prelude.{
  ℕ, ◌+◌, ◌-◌, ◌^◌, leb, Bool, true, false, ◌||◌, Option, none, some, List, [], ◌∷◌, ◌==◌,
  if◌then◌else◌, Ptr, null, is_null, Status, done, failed,
}
use pcaio.Master.{State, module_install}

-- `EAGAIN`, which is `EWOULDBLOCK` too, and `EINPROGRESS` of Linux; `IOIN`, `IOOUT` and `IOERR`.
abbrev pub eagain : ℕ
eagain = 11

abbrev pub einprogress : ℕ
einprogress = 115

abbrev pub ioin : ℕ
ioin = 0x1

abbrev pub ioout : ℕ
ioout = 0x4

abbrev pub ioerr : ℕ
ioerr = 0x8

-- `RETRY`.
unfoldable pub retryable : ℕ → Bool
retryable e = e == eagain || e == einprogress

-- An `int` is a word of 32 bits: -1, and the test for a negative one.
abbrev pub minus_one : ℕ
minus_one = 2 ^ 32 - 1

abbrev pub is_negative : ℕ → Bool
is_negative n = leb (2 ^ 31) n

-- One round of a loop: what the system call returns, `none` for -1, the `errno` behind it, and what
-- the default module's `await` answers if it is asked.
pub record Round : Type 0 where
  pub ret : Option ℕ
  pub errno : ℕ
  pub await : Status

-- What the caller sees: a result, -1 with the error code of the system call, or -1 because a wait
-- failed. With no round left the call has not returned.
pub data Reply : Type 0 where
  result : Option ℕ → Reply
  error : ℕ → Reply
  gave_up : Reply
  pending : Reply

-- What a call does to the task that makes it: `pcaio_relaxA` with its flags, and a wait for events
-- on a descriptor.
pub data Event : Type 0 where
  relaxes : ℕ → Event
  waits : (fd events : ℕ) → Event

-- `pcaio_modio_await`: `iomod` is `_mod`, and `answer` what the default module's `await` answers.
unfoldable pub await : (iomod : Ptr) → (answer : Status) → Status
await iomod answer = if is_null iomod then failed else answer

-- What stands behind `if (... == -1)` in each of the loops, where `rest` is the jump to `retry`.
unfoldable pub on_error : (iomod fd events : ℕ) → Round → Reply × List Event → Reply × List Event
unfolding await retryable
on_error iomod fd events r rest =
    if retryable r.errno
    then elim (await iomod r.await) [
      | done ↦ (rest.0, waits fd events ∷ rest.1)
      | failed ↦ (gave_up, waits fd events ∷ [])
    ]
    else (error r.errno, [])

-- The loop from the label `retry` on of `readA` and its kin, with the descriptor and the events
-- that are waited for.
unfoldable pub retry : (iomod fd events : ℕ) → List Round → Reply × List Event
unfolding on_error
retry iomod fd events [] = (pending, [])
retry iomod fd events (r ∷ rounds) =
    let rest = retry iomod fd events rounds in
    elim r.ret [ some n ↦ (result (some n), []) | none ↦ on_error iomod fd events r rest ]

-- `pcaio_relaxA(0)`, whose result is ignored, before the loop.
abbrev pub relax_first : Reply × List Event → Reply × List Event
relax_first (reply, events) = (reply, relaxes 0 ∷ events)

-- `readA`, `writeA`, `acceptA`, `accept4A` and `writevA`.
unfoldable pub read : (iomod fd : ℕ) → List Round → Reply × List Event
unfolding retry
read iomod fd rounds = relax_first (retry iomod fd ioin rounds)

unfoldable pub write : (iomod fd : ℕ) → List Round → Reply × List Event
unfolding retry
write iomod fd rounds = relax_first (retry iomod fd ioout rounds)

unfoldable pub accept : (iomod sockfd : ℕ) → List Round → Reply × List Event
unfolding retry
accept iomod sockfd rounds = relax_first (retry iomod sockfd ioin rounds)

unfoldable pub accept4 : (iomod sockfd : ℕ) → List Round → Reply × List Event
unfolding retry
accept4 iomod sockfd rounds = relax_first (retry iomod sockfd ioin rounds)

unfoldable pub writev : (iomod fd : ℕ) → List Round → Reply × List Event
unfolding retry
writev iomod fd rounds = relax_first (retry iomod fd ioout rounds)

-- The loop of `connectA`, which tests the descriptor where the others test the result.
unfoldable pub connect_from : (iomod fd : ℕ) → List Round → Reply × List Event
unfolding on_error
connect_from iomod fd [] = (pending, [])
connect_from iomod fd (r ∷ rounds) =
    let rest = connect_from iomod fd rounds in
    if fd == minus_one then on_error iomod fd ioout r rest else (result r.ret, [])

-- `connectA`.
unfoldable pub connect : (iomod fd : ℕ) → List Round → Reply × List Event
unfolding connect_from
connect iomod fd rounds = relax_first (connect_from iomod fd rounds)

-- What `getaddrinfo` comes to: 0, `EAI_AGAIN`, or another code.
pub data Resolved : Type 0 where
  found again : Resolved
  unknown : ℕ → Resolved

-- `getaddrinfoA`, with how often it gives up the processor.
unfoldable pub resolve : List Resolved → Option Status × ℕ
resolve [] = (none, 0)
resolve (found ∷ rounds) = (some done, 0)
resolve (again ∷ rounds) = let (s, relaxed) = resolve rounds in (s, 1 + relaxed)
resolve (unknown e ∷ rounds) = (some failed, 0)

-- `_mod`, its default module, and what `free` was called with, the latest first.
pub record Modio : Type 0 where
  pub iomod : Ptr
  pub default_module : Ptr
  pub freed : List Ptr

-- `pcaio_modio_use`; `memory` is what `malloc` returns.
unfoldable pub use_module :
    {M : Type 0} (memory defmod : Ptr) → Modio → State M → Status × Modio × State M
use_module memory defmod io s =
    let (r, s1) = module_install memory s in
    if is_null defmod
    then (failed, io, s)
    else (if is_null io.iomod
        then (if is_null memory then (failed, io, s) else elim r [
          | done ↦ (done, record io { iomod = memory; default_module = defmod }, s1)
          | failed ↦ (failed, record io { freed = memory ∷ io.freed }, s1)
        ])
        else (failed, io, s))

-- `_dtor`.
unfoldable pub dtor : Modio → Status × Modio
dtor io =
    if is_null io.iomod
    then (failed, io)
    else (done, record io { iomod = null; freed = io.iomod ∷ io.freed })
