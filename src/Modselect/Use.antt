-- ===== src/Modselect/Use.antt =====
-- `pcaio_modselect_use` and `_dtor` of pcaio/modselect.c.
use pcaio.Prelude.{
  ℕ, ◌^◌, ◌<◌, length, not, ◌||◌, refl, false, Option, none, some, ◌≡◌, ◌≢◌, ◌⊎◌, inl, inr, List,
  [], ◌∷◌, ◌++◌, arith, ◌≤◌, ltb, if◌then◌else◌, Ptr, null, is_null, Status, done, failed,
}
use pcaio.Master.{State, modules_max, module_install, address}
use pcaio.Master.Modules.{installed, module_install-Installed}
use pcaio.RingT
use pcaio.RingT.{Ring, refused, undefined, ready}
use pcaio.RingT.Refine.{IsRing}
use pcaio.RingT.Pop.{init-IsRing}

-- `MAXFILENO`.
abbrev maxfileno_limit : ℕ
maxfileno_limit = 1024

-- `_mod`, the fields behind it that do not change while it is installed, the ring of its events,
-- and what `free` was called with, the latest first.
pub record Module : Type 0 where
  pub iomod : Ptr
  pub maxfileno : ℕ
  pub ring : Ring
  pub freed : List Ptr

-- What the system answers: the hard limit of `getrlimit`, or none for -1; what `malloc` returns
-- for the module; what it returns for an array of events; and `ceil(log2(maxfileno))` as C
-- computes it.
pub record System : Type 0 where
  pub rlim_max : Option ℕ
  pub memory : Ptr
  pub events : ℕ → Option (List Ptr)
  pub ceil_log2 : ℕ → ℕ

-- The part of `pcaio_modselect_use` behind the allocation, with the new ring.
abbrev install_select :
    {M : Type 0} (memory : Ptr)
    → (maxfileno : ℕ) → Ring
    → Module
    → State M
    → Status × Module × State M
install_select memory maxfileno ring m s =
    let (r, s1) = module_install memory s in
    let (_, ring1) = RingT.deinit address ring in
    elim r [
      | done ↦ (done, record m { iomod = memory; maxfileno = maxfileno; ring = ring }, s1)
      | failed ↦ (failed, record m { freed = memory ∷ m.freed }, s1)
    ]

-- `pcaio_modselect_use`: none if the ring asks for a shift that C leaves undefined.
unfoldable pub use_select :
    {M : Type 0} → System → (maxfileno : ℕ) → Module → State M → Option (Status × Module × State M)
use_select sys maxfileno m s =
    if not (is_null m.iomod) || ltb maxfileno_limit maxfileno
    then some (failed, m, s)
    else elim sys.rlim_max [
      | none ↦ some (failed, m, s)
      | some limit ↦
          if ltb limit maxfileno || is_null sys.memory
          then some (failed, m, s)
          else elim (RingT.init address sys.events (sys.ceil_log2 maxfileno)) [
            | refused ↦ some (failed, record m { freed = sys.memory ∷ m.freed }, s)
            | undefined ↦ none
            | ready ring ↦ some (install_select sys.memory maxfileno ring m s)
          ]
    ]

-- `_dtor`: the ring's array and the module are freed.
unfoldable pub dtor : Module → Status × Module
dtor m = if is_null m.iomod then (failed, m) else (
  done,
  record m { ring = (RingT.deinit address m.ring).1; freed = m.iomod ∷ m.freed; iomod = null },
)

-- What `pcaio_modselect_use` promises for a limit that it takes: it puts its module behind the
-- others, with an empty ring of `2 ^ k` places; or it fails because the eight places for modules
-- are taken, gives the memory back and stays unused.
abbrev pub Used :
    {M : Type 0}
    → System
    → (maxfileno k : ℕ) → Module
    → State M
    → Status × Module × State M
    → Type 0
Used sys maxfileno k m s (r, m1, s1) =
    ((r ≡ done)
      × (m1.iomod ≡ sys.memory)
      × (m1.maxfileno ≡ maxfileno)
      × IsRing k m1.ring []
      × (installed s1 ≡ installed s ++ (sys.memory ∷ []))
      × (m1.freed ≡ m.freed))
    ⊎ ((r ≡ failed)
        × (s.modulescount ≡ modules_max)
        × (m1.iomod ≡ null)
        × (m1.freed ≡ sys.memory ∷ m.freed)
        × (s1 ≡ s))

install_select-Used :
    {M : Type 0} (sys : System) (maxfileno k : ℕ) (ring : Ring) (m : Module) (s : State M)
    → m.iomod ≡ null
    → IsRing k ring []
    → s.modulescount ≤ modules_max
    → Used sys maxfileno k m s (install_select sys.memory maxfileno ring m s)
install_select-Used sys maxfileno k ring m s unused is small =
    elim (module_install-Installed sys.memory s small) [
      | inl (r, room, grown, flags, few) ↦
          rw (install_select, r) (inl (refl, refl, refl, is, grown, refl))
      | inr (r, full, same) ↦ rw (install_select, r) (inr (refl, full, unused, refl, same))
    ]

-- With a limit of at most 1024 that the hard limit of the process allows, when the module is not
-- in use and memory is given for it and for the `2 ^ k` events of its ring, k at most 30:
-- `pcaio_modselect_use` puts its module behind the others, with an empty ring of these places; or,
-- when the eight places for modules are taken, it fails, gives the memory of the module back and
-- installs nothing.
pub use_select-Used :
    {M : Type 0} (sys : System) (maxfileno limit k : ℕ) (m : Module) (s : State M)
    {block : List Ptr}
    → m.iomod ≡ null
    → maxfileno ≤ maxfileno_limit
    → sys.rlim_max ≡ some limit
    → maxfileno ≤ limit
    → sys.memory ≢ null
    → sys.ceil_log2 maxfileno ≡ k
    → k ≤ 30
    → sys.events (2 ^ k) ≡ some block
    → length block ≡ 2 ^ k
    → s.modulescount ≤ modules_max
    → (out : Status × Module × State M) × (use_select sys maxfileno m s ≡ some out)
      × Used sys maxfileno k m s out
unfolding use_select
use_select-Used sys maxfileno limit k m s {block} unused small lim under given bits few array sized
      fits =
    let (ring, made, is) = init-IsRing address sys.events k (ground arith) few array sized in
    let guard : (not (is_null m.iomod) || ltb maxfileno_limit maxfileno) ≡ false = ground arith in
    let guard1 : (ltb limit maxfileno || is_null sys.memory) ≡ false = ground arith in
    (
      install_select sys.memory maxfileno ring m s,
      rw (guard, lim, guard1, bits, made) refl,
      install_select-Used sys maxfileno k ring m s unused is fits,
    )

-- Whatever the system answers, `pcaio_modselect_use` fails and changes nothing when the module is
-- in use, when the limit is above 1024, or when it is above the hard limit of the process.
pub use_select-refuses :
    {M : Type 0} (sys : System) (maxfileno limit : ℕ) (m : Module) (s : State M)
    → sys.rlim_max ≡ some limit
    → (m.iomod ≢ null) ⊎ (maxfileno_limit < maxfileno) ⊎ (limit < maxfileno)
    → use_select sys maxfileno m s ≡ some (failed, m, s)
unfolding use_select
use_select-refuses sys maxfileno limit m s lim bad = rw lim (ground arith)
