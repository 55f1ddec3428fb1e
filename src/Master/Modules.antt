-- ===== src/Master/Modules.antt =====
-- The modules: how they are installed, and a round of the main loop over them.
use pcaio.Prelude.{
  ℕ, zero, suc, ◌+◌, ◌<◌, ◌≤◌, ◌≡◌, refl, ◌∙◌, ap, ap₂, ◌⊎◌, inl, inr, Bool-cases, Bool, true,
  false, List, [], ◌∷◌, ◌++◌, arith, ◌==◌, if◌then◌else◌, Ptr, update, Status, done, failed, ltb,
}
use pcaio.Threadpool.Loops.{slice}
use pcaio.Master.{
  State, Callbacks, modules_max, module_install, tick_one, tick_from, tick_all, timeout_short,
  timeout_long,
}

-- The installed modules, the oldest first.
abbrev pub installed : {M : Type 0} → State M → List Ptr
installed s = slice s.modules s.modulescount 0

slice-update :
    (f : ℕ → Ptr) (n i j : ℕ) (m : Ptr) → i + n ≤ j → slice (update f j m) n i ≡ slice f n i
slice-update f zero i j m h = refl
slice-update f (suc n) i j m h =
    ap₂ (λ (a : Ptr) (l : List Ptr). a ∷ l) (ground arith)
      (slice-update f n (i + 1) j m (omega arith))

one_more : (n : ℕ) → n + 1 ≡ suc n
one_more n = omega arith

slice-last : (f : ℕ → Ptr) (n i : ℕ) → slice f (suc n) i ≡ slice f n i ++ (f (i + n) ∷ [])
slice-last f zero i = ap (λ (k : ℕ). f k ∷ []) (omega arith)
slice-last f (suc n) i =
    ap (λ (l : List Ptr). f i ∷ l)
      (slice-last f n (i + 1) ∙ ap (λ (k : ℕ). slice f n (i + 1) ++ (f k ∷ [])) (omega arith))

-- What `pcaio_module_install` promises.
abbrev pub Installed : {M : Type 0} → Ptr → State M → Status × State M → Type 0
Installed m s (r, s1) =
    ((r ≡ done)
      × (s.modulescount < modules_max)
      × (installed s1 ≡ installed s ++ (m ∷ []))
      × (s1.module_flags m ≡ 0)
      × (s1.modulescount ≤ modules_max))
    ⊎ ((r ≡ failed) × (s.modulescount ≡ modules_max) × (s1 ≡ s))

-- A module goes behind the others as long as there is room for it, with no flag set; when the
-- eight places are taken it is refused and nothing changes.
pub module_install-Installed :
    {M : Type 0} (m : Ptr) (s : State M)
    → s.modulescount ≤ modules_max
    → Installed m s (module_install m s)
unfolding module_install
module_install-Installed m s h = elim (Bool-cases (s.modulescount == modules_max)) [
  | inl full ↦ rw full (inr (refl, ground arith, refl))
  | inr room ↦ rw room (
      inl (
        refl,
        ground arith,
        ap (λ (k : ℕ). slice (update s.modules s.modulescount m) k 0) (one_more s.modulescount)
            ∙ slice-last (update s.modules s.modulescount m) s.modulescount 0
            ∙ ap₂ (λ (l : List Ptr) (a : Ptr). l ++ (a ∷ []))
                (slice-update s.modules s.modulescount 0 s.modulescount m (omega arith))
                (ground arith),
        ground arith,
        ground arith,
      ))
]

-- A round over a list of modules.
unfoldable pub tick_list :
    {M : Type 0} → Callbacks M → (timeout : ℕ) → List Ptr → Bool → State M → Bool × State M
tick_list cb timeout [] any s = (any, s)
tick_list cb timeout (m ∷ ms) any s =
    let (any1, s1) = tick_one cb timeout m any s in tick_list cb timeout ms any1 s1

-- The ticks install no module.
abbrev pub KeepsModules : {M : Type 0} → Callbacks M → Type 0
KeepsModules {M} cb =
    (m : Ptr) (timeout : ℕ) (s : State M)
    → ((cb.tick m timeout s).1.modules ≡ s.modules)
      × ((cb.tick m timeout s).1.modulescount ≡ s.modulescount)

tick_one-keeps :
    {M : Type 0} (cb : Callbacks M) (timeout : ℕ) (m : Ptr) (any : Bool) (s : State M)
    → KeepsModules cb
    → ((tick_one cb timeout m any s).1.modules ≡ s.modules)
      × ((tick_one cb timeout m any s).1.modulescount ≡ s.modulescount)
unfolding tick_one
tick_one-keeps cb timeout m any s keeps = ground (arith, keeps m timeout s)

tick_from-list :
    {M : Type 0} (cb : Callbacks M) (timeout fuel i left : ℕ) (any : Bool) (s : State M)
    → KeepsModules cb
    → s.modulescount ≡ i + left
    → left ≤ fuel
    → tick_from cb timeout fuel i any s ≡ tick_list cb timeout (slice s.modules left i) any s
unfolding tick_from tick_list
tick_from-list cb timeout zero i zero any s keeps count enough = refl
tick_from-list cb timeout zero i (suc left) any s keeps count enough = ground arith
tick_from-list cb timeout (suc fuel) i zero any s keeps count enough = rw end refl
  where
    end : ltb i s.modulescount ≡ false
    end = ground arith
tick_from-list cb timeout (suc fuel) i (suc left) any s keeps count enough =
    let (any1, s1) = tick_one cb timeout (s.modules i) any s in
    let (same, counted) = tick_one-keeps cb timeout (s.modules i) any s keeps in
    let rest =
      tick_from-list cb timeout fuel (i + 1) left any1 s1 keeps (omega (arith, counted))
        (omega arith) in
    rw more (rest ∙ ap (λ (f : ℕ → Ptr). tick_list cb timeout (slice f left (i + 1)) any1 s1) same)
  where
    more : ltb i s.modulescount ≡ true
    more = ground arith

-- With at most eight modules, whose ticks install no module, a round of the main loop runs every
-- installed module once, in the order in which they were installed, with the short timeout if the
-- last round left work, and otherwise after a sleep and with the long one.
pub tick_all-installed :
    {M : Type 0} (cb : Callbacks M) (any : Bool) (s : State M)
    → KeepsModules cb
    → s.modulescount ≤ modules_max
    → (cb.sleep timeout_long s).modulescount ≤ modules_max
    → tick_all cb any s ≡ (
        if any
        then tick_list cb timeout_short (installed s) false s
        else (let s1 = cb.sleep timeout_long s in
            tick_list cb timeout_long (installed s1) false s1))
unfolding tick_all
tick_all-installed cb true s keeps h h' =
    tick_from-list cb timeout_short modules_max 0 s.modulescount false s keeps (omega arith) h
tick_all-installed cb false s keeps h h' =
    tick_from-list cb timeout_long modules_max 0 (cb.sleep timeout_long s).modulescount false
      (cb.sleep timeout_long s) keeps (omega arith) h'
