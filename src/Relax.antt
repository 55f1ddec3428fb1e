-- ===== src/Relax.antt =====
-- `pcaio_self` and `pcaio_relaxA` of pcaio/pcaio.c: how a task finds itself, and how it gives the
-- processor back to the worker that runs it.
use Prim.Native.Nat.{bit_or}
use pcaio.Prelude.{
  ℕ, false, refl, ◌≡◌, ◌≢◌, arith, if◌then◌else◌, Ptr, null, is_null, update, Status, failed, Tid,
}
use pcaio.World.{World}
use pcaio.Threadlocal

-- `pcaio_self` in the thread `thread`.
unfoldable pub self : Tid → World → Ptr
unfolding Threadlocal.get
self thread w = Threadlocal.get thread w.task_key

-- `t->flags |= flags`.
abbrev pub add_flags : Ptr → ℕ → World → World
add_flags t flags w = record w { flags = update w.flags t (bit_or (w.flags t) flags) }

-- `pcaio_relaxA` in the thread `thread`. `swap` is what `swapcontext` comes to: -1, or that the
-- task runs again, in the state that it then finds. A module that waits has a state of its own
-- around the shared one: `world` reads the shared part, and `put` stores it.
module _ {S : Type 0} (world : S → World) (put : World → S → S) where
  unfoldable pub relax_in : Tid → (swap : S → Status × S) → (flags : ℕ) → S → Status × S
  unfolding Threadlocal.get
  relax_in thread swap flags s =
      let t = Threadlocal.get thread (world s).task_key in
      let ctx = Threadlocal.get thread (world s).context_key in
      if is_null t
      then (failed, s)
      else (if is_null ctx then (failed, s) else swap (put (add_flags t flags (world s)) s))

  -- In a thread that runs a task and has a context to land in, the task gets the flags and leaves.
  pub relax_in-swap :
      (thread : Tid) (swap : S → Status × S) (flags : ℕ) (s : S)
      → is_null (self thread (world s)) ≡ false
      → is_null ((world s).context_key.value thread) ≡ false
      → relax_in thread swap flags s
        ≡ swap (put (add_flags (self thread (world s)) flags (world s)) s)
  unfolding relax_in self Threadlocal.get
  relax_in-swap thread swap flags s task ctx = rw (task, ctx) refl

-- The same where there is nothing but the shared state.
unfoldable pub relax : Tid → (swap : World → Status × World) → (flags : ℕ) → World → Status × World
unfolding relax_in
relax thread swap flags w = relax_in (λ v. v) (λ v _. v) thread swap flags w

-- The same for the plain `relax`.
pub relax-swap :
    (thread : Tid) (swap : World → Status × World) (flags : ℕ) (w : World)
    → self thread w ≢ null
    → w.context_key.value thread ≢ null
    → relax thread swap flags w ≡ swap (add_flags (self thread w) flags w)
unfolding relax
relax-swap thread swap flags w task ctx =
    relax_in-swap (λ v. v) (λ v _. v) thread swap flags w (ground arith) (ground arith)
