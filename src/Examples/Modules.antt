-- ===== src/Examples/Modules.antt =====
-- How the programs of examples/ install the epoll module, and input and output on top of it.
use pcaio.Prelude.{
  List, not, ◌||◌, is_null, ◌==◌, true, false, ℕ, ◌+◌, ◌<◌, ◌≡◌, refl, sym, subst, ap, ◌∙◌, ◌≢◌,
  inl, inr, [], ◌∷◌, ◌++◌, append_assoc, arith, Ptr, null, done, failed,
}
use pcaio.Master.{State, modules_max, module_install}
use pcaio.Master.Modules.{installed, module_install-Installed}
use pcaio.Modepoll.{Module, use_epoll}
use pcaio.Modio.{Modio, use_module}

-- What the two modules keep.
pub record Memory : Type 0 where
  pub epoll : Module
  pub modio : Modio

-- What `malloc` returns for the two modules, and what the variable `modepoll` holds before it is
-- set, which it is only if the module can be used.
pub record Given : Type 0 where
  pub epoll : Ptr
  pub modio : Ptr
  pub unset : Ptr

-- `pcaio_modepoll_use(maxevents, &modepoll)` and `pcaio_modio_use(modepoll)`, whose results the
-- programs ignore.
unfoldable pub use_modules : Given → (maxevents : ℕ) → State Memory → State Memory
use_modules given maxevents s =
    let (r, m, s1) = use_epoll given.epoll maxevents s.memory.epoll s in
    let modepoll : Ptr = elim r [ done ↦ given.epoll | failed ↦ given.unset ] in
    let (_, io, s2) = use_module given.modio modepoll s.memory.modio s1 in
    record s2 { memory = record { epoll = m; modio = io } }

-- `pcaio_module_install` where there is room.
module_installs :
    {M : Type 0} (m : Ptr) (s : State M)
    → s.modulescount < modules_max
    → let s1 = (module_install m s).1 in
      ((module_install m s).0 ≡ done)
      × (installed s1 ≡ installed s ++ (m ∷ []))
      × (s1.modulescount ≡ s.modulescount + 1)
      × (s1.world ≡ s.world)
unfolding module_install
module_installs m s room =
    let free : (s.modulescount == modules_max) ≡ false = ground arith in
    elim (module_install-Installed m s (omega arith)) [
      | inl (_, _, grown, _, _) ↦ (rw free refl, grown, rw free refl, rw free refl)
      | inr (_, full, _) ↦ absurd (omega arith)
    ]

use_epoll-done :
    {M : Type 0} (memory : Ptr) (maxevents : ℕ) (m : Module) (s : State M)
    → memory ≢ null
    → maxevents ≢ 0
    → m.iomod ≡ null
    → (module_install memory s).0 ≡ done
    → use_epoll memory maxevents m s
      ≡ (done, record m { iomod = memory; maxevents = maxevents }, (module_install memory s).1)
unfolding use_epoll
use_epoll-done memory maxevents m s n some unused e =
    let guard : (not (is_null m.iomod) || maxevents == 0 || is_null memory) ≡ false =
      ground arith in
    rw (guard, e) refl

use_module-done :
    {M : Type 0} (memory defmod : Ptr) (io : Modio) (s : State M)
    → memory ≢ null
    → defmod ≢ null
    → io.iomod ≡ null
    → (module_install memory s).0 ≡ done
    → use_module memory defmod io s
      ≡ (done, record io { iomod = memory; default_module = defmod }, (module_install memory s).1)
unfolding use_module
use_module-done memory defmod io s n n' unused e =
    let given : is_null memory ≡ false = ground arith in
    let default : is_null defmod ≡ false = ground arith in
    let free : is_null io.iomod ≡ true = ground arith in rw (default, free, given, e) refl

-- What the two calls leave of `s` when both succeed.
abbrev pub BothInstalled : Given → State Memory → State Memory → Type 0
BothInstalled given s s1 =
    (installed s1 ≡ installed s ++ (given.epoll ∷ given.modio ∷ []))
    × (s1.memory.epoll.iomod ≡ given.epoll)
    × (s1.memory.modio.iomod ≡ given.modio)
    × (s1.memory.modio.default_module ≡ given.epoll)
    × (s1.world ≡ s.world)

-- With memory for both, room for two modules and for an event, and neither in use: the epoll module
-- and that for input and output stand behind the others, in this order, input and output use the
-- epoll module, and nothing happens to the tasks.
pub use_modules-installed :
    (given : Given) (maxevents : ℕ) (s : State Memory)
    → given.epoll ≢ null
    → given.modio ≢ null
    → maxevents ≢ 0
    → s.memory.epoll.iomod ≡ null
    → s.memory.modio.iomod ≡ null
    → s.modulescount + 1 < modules_max
    → BothInstalled given s (use_modules given maxevents s)
unfolding use_modules
use_modules-installed given maxevents s n n' some unused unused' room =
    let (done1, grown1, count, world1) = module_installs given.epoll s (omega arith) in
    let s1 = (module_install given.epoll s).1 in
    let (done2, grown2, _, world2) = module_installs given.modio s1 (omega (arith, count)) in
    let s2 = (module_install given.modio s1).1 in
    let m = record s.memory.epoll { iomod = given.epoll; maxevents = maxevents } in
    let io = record s.memory.modio { iomod = given.modio; default_module = given.epoll } in
    let all : use_modules given maxevents s
        ≡ record s2 { memory = record { epoll = m; modio = io } } =
      rw
        (
          use_epoll-done given.epoll maxevents s.memory.epoll s n some unused done1,
          use_module-done given.modio given.epoll s.memory.modio s1 n' n unused' done2,
        )
        refl in
    subst (BothInstalled given s) (sym all) (
      grown2
          ∙ ap (λ (l : List Ptr). l ++ (given.modio ∷ [])) grown1
          ∙ append_assoc (installed s) (given.epoll ∷ []) (given.modio ∷ []),
      refl,
      refl,
      refl,
      world2 ∙ world1,
    )
