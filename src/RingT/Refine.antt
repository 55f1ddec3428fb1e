-- ===== src/RingT/Refine.antt =====
-- The ring of include/pcaio/ringT.c against the list of what it holds, oldest first.
use Prim.Native.Nat.{bit_and}
use native.Mathlib.Nat.{mod-eq_of_lt, mod-eq-sub-mod, mod-add-mod, mod-lt}
use native.Mathlib.Decide.{dec_lt}
use pcaio.Prelude.{
  ℕ, zero, suc, ◌+◌, ◌-◌, ◌%◌, ◌^◌, ◌≤◌, ◌<◌, ◌≡◌, refl, ap, sym, subst, ◌∙◌, ◌≢◌, false, some,
  List, [], ◌∷◌, ◌++◌, arith, ◌==◌, if◌then◌else◌, Ptr, Status, done, failed, length, sizes,
  get_elem?, set, length-set, get_elem?-set_self, get_elem?-set_ne, Bool-cases, inl, inr, ==_iff,
}
use pcaio.Prelude.Bits.{bit_and_low}
use pcaio.RingT.Indices.{wrap_mod, distance, distance_left, two_pow_pos}
use pcaio.RingT.{Ring, sub_int, add_int, used, avail, push}

-- From index `h` on, going round at `size`, the array holds `xs`.
abbrev pub Holds : List Ptr → ℕ → ℕ → List Ptr → Type 0
Holds b size h [] = Unit {0}
Holds b size h (x ∷ xs) = (get_elem? b h ≡ some x) × Holds b size ((h + 1) % size) xs

-- The ring of `2 ^ k` places holds `xs`, oldest first. One place stays free.
pub record IsRing (k : ℕ) (r : Ring) (xs : List Ptr) : Type 0 where
  pub width : k ≤ 30
  pub masked : r.mask ≡ 2 ^ k - 1
  pub places : length r.backend ≡ 2 ^ k
  pub head_in : r.head < 2 ^ k
  pub tail_at : r.tail ≡ (r.head + length xs) % 2 ^ k
  pub room : length xs < 2 ^ k
  pub holds : Holds r.backend (2 ^ k) r.head xs

-- Fewer than `size` steps round the array do not come back to the start.
step_ne : (size h n : ℕ) → h < size → 0 < n → n < size → (h + n) % size ≢ h
step_ne size h n hh hp hn = elim (dec_lt (h + n) size) [
  | yes p ↦ omega (arith, mod-eq_of_lt p)
  | no p ↦ omega (
    arith,
    mod-eq-sub-mod {n = h + n} {m = size} (omega arith),
    mod-eq_of_lt {n = h + n - size} {m = size} (omega arith),
  )
]

pub step_once : (size h n : ℕ) → ((h + 1) % size + n) % size ≡ (h + suc n) % size
step_once size h n = rw mod-add-mod (ap (λ t. t % size) (omega arith))

-- A store behind the window spares it.
Holds-set :
    (b : List Ptr) (size h n : ℕ) (v : Ptr) (xs : List Ptr)
    → Holds b size h xs
    → h < size
    → length xs ≤ n
    → n < size
    → Holds (set b ((h + n) % size) v) size h xs
Holds-set b size h n v [] w hh hx hn = tt
Holds-set b size h zero v (x ∷ xs) w hh hx hn = absurd (omega arith)
Holds-set b size h (suc n) v (x ∷ xs) w hh hx hn = (
  get_elem?-set_ne b ((h + suc n) % size) h v (step_ne size h (suc n) hh (omega arith) hn) ∙ w.0,
  subst (λ t. Holds (set b t v) size ((h + 1) % size) xs) (step_once size h n)
      (Holds-set b size ((h + 1) % size) n v xs w.1 (omega arith) (omega arith) (omega arith)),
)

-- What stands at the end of the window belongs to it.
Holds-snoc :
    (b : List Ptr) (size h : ℕ) (v : Ptr) (xs : List Ptr)
    → Holds b size h xs
    → h < size
    → get_elem? b ((h + length xs) % size) ≡ some v
    → Holds b size h (xs ++ (v ∷ []))
Holds-snoc b size h v [] w hh e = (
  let here : (h + 0) % size ≡ h = mod-eq_of_lt {n = h + 0} (omega arith) ∙ omega arith in
      rw here at e,
  tt,
)
Holds-snoc b size h v (x ∷ xs) w hh e = (
  w.0,
  Holds-snoc b size ((h + 1) % size) v xs w.1 (omega arith) (rw (step_once size h (length xs)) e),
)

module _ {k : ℕ} {r : Ring} {xs : List Ptr} (is : IsRing k r xs) where
  -- RINGT_USED counts the elements, and RINGT_AVAIL the places that are left: all but one.
  pub used-length : used r ≡ length xs
  unfolding used
  used-length =
      ap (λ m. bit_and (sub_int r.tail r.head) m) is.masked
      ∙ bit_and_low k (sub_int r.tail r.head)
      ∙ distance k r.head r.tail (length xs) is.width is.head_in is.tail_at is.room

  pub avail-length : avail r ≡ 2 ^ k - 1 - length xs
  unfolding avail
  avail-length =
      ap (λ m. bit_and (sub_int (sub_int r.head r.tail) 1) m) is.masked
      ∙ bit_and_low k (sub_int (sub_int r.head r.tail) 1)
      ∙ distance_left k r.head r.tail (length xs) is.width is.head_in is.tail_at is.room

  tail_lt : r.tail < 2 ^ k
  tail_lt = rw is.tail_at (mod-lt (r.head + length xs) (two_pow_pos k))

  -- The next index, masked.
  pub next_index : (i : ℕ) → i < 2 ^ k → bit_and (add_int i 1) r.mask ≡ (i + 1) % 2 ^ k
  next_index i h =
      ap (λ m. bit_and (add_int i 1) m) is.masked
      ∙ bit_and_low k (add_int i 1)
      ∙ wrap_mod k (i + 1) (omega (arith, is.width))

-- What `push` does when the ring is not full.
push-ok :
    (e : Ptr) (r : Ring)
    → avail r ≢ 0
    → push e r ≡ (
      done,
      record r {
        tail = bit_and (add_int r.tail 1) r.mask;
        tailx = false;
        backend = set r.backend r.tail e;
      },
    )
unfolding push
push-ok e r n = ground arith

push-full : (e : Ptr) (r : Ring) → avail r ≡ 0 → push e r ≡ (failed, r)
unfolding push
push-full e r n = ground arith

-- What `push` promises of a ring of `size` places: one of them is never used.
unfoldable pub enqueue : ℕ → Ptr → List Ptr → Status × List Ptr
enqueue size e xs = if length xs + 1 == size then (failed, xs) else (done, xs ++ (e ∷ []))

-- On a well-formed ring of `2 ^ k` places `push` puts the element at the end, and fails only if a
-- single place is left.
pub push-enqueue :
    {k : ℕ} {r : Ring} {xs : List Ptr} (e : Ptr)
    → IsRing k r xs
    → let (s, r') = push e r in
      (s ≡ (enqueue (2 ^ k) e xs).0) × IsRing k r' (enqueue (2 ^ k) e xs).1
unfolding enqueue
push-enqueue {k} {r} {xs} e is = elim (Bool-cases (length xs + 1 == 2 ^ k)) [
  | inl full ↦
      rw (full, push-full e r (avail-length is ∙ omega (arith, (==_iff _ _).0 full))) (refl, is)
  | inr room ↦
      let i : ℕ = (r.head + length xs) % 2 ^ k in
      let free : length xs + 1 < 2 ^ k = ground (arith, is.room) in
      let some_left : avail r ≢ 0 = omega (arith, avail-length is) in
      rw room (
        subst (λ (o : Status × Ring). (o.0 ≡ done) × IsRing k o.1 (xs ++ (e ∷ [])))
          (sym (push-ok e r some_left))
          (
            refl,
            record {
              width = is.width;
              masked = is.masked;
              places = length-set r.backend r.tail e ∙ is.places;
              head_in = is.head_in;
              tail_at =
                  next_index is r.tail (tail_lt is)
                  ∙ ap (λ (t : ℕ). (t + 1) % 2 ^ k) is.tail_at
                  ∙ mod-add-mod (r.head + length xs) (2 ^ k) 1
                  ∙ ap (λ (t : ℕ). t % 2 ^ k)
                      (let sum : r.head + length xs + 1 ≡ r.head + length (xs ++ (e ∷ [])) =
                          grind sizes in
                        sum);
              room = grind sizes;
              holds =
                  subst (λ t. Holds (set r.backend t e) (2 ^ k) r.head (xs ++ (e ∷ [])))
                    (sym is.tail_at)
                    (Holds-snoc (set r.backend i e) (2 ^ k) r.head e xs
                      (Holds-set r.backend (2 ^ k) r.head (length xs) e xs is.holds is.head_in
                        (omega arith) is.room)
                      is.head_in
                      (get_elem?-set_self r.backend i e
                        (omega (arith, is.places, tail_lt is, is.tail_at))));
            },
          ))
]
