-- ===== src/Modepoll/Use.antt =====
-- `pcaio_modepoll_use` and `_dtor` of pcaio/modepoll.c.
use pcaio.Prelude.{
  ℕ, ◌≡◌, ◌≢◌, ◌≤◌, ◌⊎◌, inl, inr, [], ◌∷◌, ◌++◌, arith, Ptr, null, Status, done, failed,
}
use pcaio.Master.{State, modules_max}
use pcaio.Master.Modules.{installed, module_install-Installed}
use pcaio.Modepoll.{Module, use_epoll, dtor}

-- What `pcaio_modepoll_use` promises. It succeeds at most once, with room for an event at least, and
-- puts its module behind the others; in every other case no module is installed, and the memory is
-- given back.
abbrev pub Used :
    {M : Type 0} (memory : Ptr)
    → (maxevents : ℕ) → Module
    → State M
    → Status × Module × State M
    → Type 0
Used memory maxevents m s (r, m1, s1) =
    ((r ≡ done)
      × (m.iomod ≡ null)
      × (m1.iomod ≡ memory)
      × (m1.iomod ≢ null)
      × (m1.maxevents ≡ maxevents)
      × (maxevents ≢ 0)
      × (installed s1 ≡ installed s ++ (memory ∷ []))
      × (m1.freed ≡ m.freed))
    ⊎ ((r ≡ failed)
        × (m1.iomod ≡ m.iomod)
        × (s1 ≡ s)
        × ((m1.freed ≡ m.freed) ⊎ ((s.modulescount ≡ modules_max) × (m1.freed ≡ memory ∷ m.freed))))

-- On every branch, with at most eight modules installed, `pcaio_modepoll_use` does this: it succeeds
-- only if it was not used before and has room for an event at least, and then its own module stands
-- behind the others; otherwise it fails, no module is installed, and memory that it got is freed
-- when the eight places are taken.
pub use_epoll-Used :
    {M : Type 0} (memory : Ptr) (maxevents : ℕ) (m : Module) (s : State M)
    → s.modulescount ≤ modules_max
    → Used memory maxevents m s (use_epoll memory maxevents m s)
unfolding use_epoll
use_epoll-Used memory maxevents m s small = elim (module_install-Installed memory s small) [
  | inl (r, room, grown, flags, few) ↦ ground arith
  | inr (r, full, same) ↦ ground arith
]

-- A module that is removed closes its descriptor and frees its memory, once: the second time
-- `_dtor` fails and changes nothing.
pub dtor_twice :
    (fd : ℕ) (m : Module)
    → m.iomod ≢ null
    → let (r, m1) = dtor fd m in
      (r ≡ done)
      × (m1.closed ≡ fd ∷ m.closed)
      × (m1.freed ≡ m.iomod ∷ m.freed)
      × (dtor fd m1 ≡ (failed, m1))
unfolding dtor
dtor_twice fd m n = ground arith
