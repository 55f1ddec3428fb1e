-- ===== src/RingT/Pop.antt =====
-- `pop` and `init` of include/pcaio/ringT.c.
use Prim.Native.Nat.{bit_and}
use native.Mathlib.Nat.{mod-eq_of_lt, mod-lt}
use pcaio.Prelude.{
  ℕ, ◌+◌, ◌-◌, ◌%◌, ◌^◌, ◌≤◌, ◌≡◌, refl, ap, sym, subst, ◌∙◌, ◌≢◌, false, Option, none, some, List,
  [], ◌∷◌, arith, Ptr, null, Status, done, failed, length, get_elem?,
}
use pcaio.RingT.Indices.{two_pow_pos}
use pcaio.RingT.{Ring, ready, init, allocated, add_int, used, pop}
use pcaio.RingT.Refine.{IsRing, next_index, step_once, used-length}

-- `pop` takes the oldest element, and fails only on an empty ring.
pop-ok :
    (r : Ring)
    → used r ≢ 0
    → pop r ≡ (
      done,
      get_elem? r.backend r.head,
      record r { head = bit_and (add_int r.head 1) r.mask; headx = false },
    )
unfolding pop
pop-ok r n = ground arith

-- `pop` takes the oldest element of a ring that is not empty.
pub pop-oldest :
    {k : ℕ} {r : Ring} {x : Ptr} {xs : List Ptr}
    → IsRing k r (x ∷ xs)
    → ((pop r).0 ≡ done) × ((pop r).1 ≡ some x) × IsRing k (pop r).2 xs
pop-oldest {k} {r} {x} {xs} is =
    subst (λ (o : Status × Option Ptr × Ring). (o.0 ≡ done) × (o.1 ≡ some x) × IsRing k o.2 xs)
      (sym (pop-ok r (omega (arith, used-length is))))
      (
        refl,
        is.holds.0,
        record {
          width = is.width;
          masked = is.masked;
          places = is.places;
          head_in = rw (next_index is r.head is.head_in) (mod-lt (r.head + 1) (two_pow_pos k));
          tail_at =
              is.tail_at
              ∙ sym (step_once (2 ^ k) r.head (length xs))
              ∙ ap (λ (i : ℕ). (i + length xs) % 2 ^ k) (sym (next_index is r.head is.head_in));
          room = omega (arith, is.room);
          holds = rw (next_index is r.head is.head_in) is.holds.1;
        },
      )

pub pop_empty : {k : ℕ} {r : Ring} → IsRing k r [] → pop r ≡ (failed, none, r)
unfolding pop
pop_empty is = ground (arith, used-length is)

-- `init` of up to 30 bits makes an empty ring, if `malloc` returns as many places as asked for.
pub init-IsRing :
    (p : Ptr) (malloc : ℕ → Option (List Ptr)) (bits : ℕ) {block : List Ptr}
    → p ≢ null
    → bits ≤ 30
    → malloc (2 ^ bits) ≡ some block
    → length block ≡ 2 ^ bits
    → (r : Ring) × (init p malloc bits ≡ ready r) × IsRing bits r []
unfolding init allocated
init-IsRing p malloc bits {block} n small given sized = (
  record { head = 0; tail = 0; mask = 2 ^ bits - 1; headx = false; tailx = false; backend = block },
  ground arith,
  record {
    width = small;
    masked = refl;
    places = sized;
    head_in = two_pow_pos bits;
    tail_at = sym (mod-eq_of_lt (two_pow_pos bits));
    room = two_pow_pos bits;
    holds = tt;
  },
)
