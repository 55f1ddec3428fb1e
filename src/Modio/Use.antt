-- ===== src/Modio/Use.antt =====
-- `pcaio_modio_use` and `_dtor` of pcaio/modio.c.
use pcaio.Prelude.{
  ◌≡◌, ◌≢◌, ◌⊎◌, inl, inr, [], ◌∷◌, ◌++◌, arith, ◌≤◌, Ptr, null, Status, done, failed,
}
use pcaio.Master.{State, modules_max}
use pcaio.Master.Modules.{installed, module_install-Installed}
use pcaio.Modio.{Modio, use_module}

-- What `pcaio_modio_use` promises. It succeeds at most once, and puts its own module behind the
-- others; in every other case no module is installed, and the memory is given back.
abbrev pub Used :
    {M : Type 0} (memory defmod : Ptr) → Modio → State M → Status × Modio × State M → Type 0
Used memory defmod io s (r, io1, s1) =
    ((r ≡ done)
      × (io.iomod ≡ null)
      × (io1.iomod ≡ memory)
      × (io1.iomod ≢ null)
      × (io1.default_module ≡ defmod)
      × (installed s1 ≡ installed s ++ (memory ∷ []))
      × (io1.freed ≡ io.freed))
    ⊎ ((r ≡ failed)
        × (io1.iomod ≡ io.iomod)
        × (s1 ≡ s)
        × ((io1.freed ≡ io.freed)
            ⊎ ((s.modulescount ≡ modules_max) × (io1.freed ≡ memory ∷ io.freed))))

-- On every branch, with at most eight modules installed, `pcaio_modio_use` does this: it succeeds only
-- if it was not used before, and then its own module stands behind the others; otherwise it fails,
-- no module is installed, and memory that it got is freed when the eight places are taken.
pub use_module-Used :
    {M : Type 0} (memory defmod : Ptr) (io : Modio) (s : State M)
    → s.modulescount ≤ modules_max
    → Used memory defmod io s (use_module memory defmod io s)
unfolding use_module
use_module-Used memory defmod io s small = elim (module_install-Installed memory s small) [
  | inl (r, room, grown, flags, few) ↦ ground arith
  | inr (r, full, same) ↦ ground arith
]
