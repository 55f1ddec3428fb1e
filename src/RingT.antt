-- ===== src/RingT.antt =====
-- The ring template of include/pcaio/ringT.h and include/pcaio/ringT.c, which modio.c instantiates
-- as `pcaio_ioeventring`: a bounded FIFO in an array whose size is a power of two.
pub mod Indices
pub mod Refine
pub mod Pop
pub mod Run
mod Tests
use Prim.Native.Nat.{bit_and}
use pcaio.Prelude.{
  ℕ, ◌+◌, ◌-◌, ◌%◌, ◌^◌, Bool, true, false, Option, none, some, List, [], ltb, ◌==◌, if◌then◌else◌,
  Ptr, is_null, Status, done, failed, get_elem?, set,
}

-- `struct T##ring`. The fields of type `int` are words of 32 bits; `headx` and `tailx` say whether
-- these mutexes are held. A `backend` that is NULL is the empty array.
pub record Ring : Type 0 where
  pub head : ℕ
  pub tail : ℕ
  pub mask : ℕ
  pub headx : Bool
  pub tailx : Bool
  pub backend : List Ptr

-- `int` subtraction, in two's complement.
abbrev pub sub_int : ℕ → ℕ → ℕ
sub_int a b = (a + 2 ^ 32 - b) % 2 ^ 32

abbrev pub add_int : ℕ → ℕ → ℕ
add_int a b = (a + b) % 2 ^ 32

-- RINGT_USED, RINGT_AVAIL, RINGT_ISEMPTY and RINGT_ISFULL.
unfoldable pub used : Ring → ℕ
used r = bit_and (sub_int r.tail r.head) r.mask

unfoldable pub avail : Ring → ℕ
avail r = bit_and (sub_int (sub_int r.head r.tail) 1) r.mask

unfoldable pub is_empty : Ring → Bool
is_empty r = used r == 0

unfoldable pub is_full : Ring → Bool
is_full r = avail r == 0

-- What a call of `init` comes to: -1, a shift that C leaves undefined, or a ring.
pub data Init : Type 0 where
  refused : Init
  undefined : Init
  ready : Ring → Init

-- `block` is what `malloc` returns: NULL, or an array with some content.
allocated : Option (List Ptr) → ℕ → Init
allocated none size = refused
allocated (some block) size =
    ready (record {
      head = 0;
      tail = 0;
      mask = size - 1;
      headx = false;
      tailx = false;
      backend = block;
    })

-- The guard lets `bits` be 31 and 32, where `1 << bits` does not fit an `int`.
unfoldable pub init : Ptr → (malloc : ℕ → Option (List Ptr)) → ℕ → Init
unfolding allocated
init r malloc bits =
    if is_null r
    then refused
    else (if ltb 32 bits
        then refused
        else (if ltb 30 bits then undefined else allocated (malloc (2 ^ bits)) (2 ^ bits)))

unfoldable pub deinit : Ptr → Ring → Status × Ring
deinit p r = if is_null p then (failed, r) else (done, record r { backend = [] })

unfoldable pub push : Ptr → Ring → Status × Ring
unfolding is_full
push e r =
    if is_full r
    then (failed, r)
    else (let r1 = record r { tailx = true; backend = set r.backend r.tail e } in
        let r2 = record r1 { tail = add_int r1.tail 1 } in
        (done, record r2 { tail = bit_and r2.tail r2.mask; tailx = false }))

-- The option is what is stored through `o`, `none` if the array were read out of bounds.
unfoldable pub pop : Ring → Status × Option Ptr × Ring
unfolding is_empty
pop r =
    if is_empty r
    then (failed, none, r)
    else (let o = get_elem? r.backend r.head in
        let r1 = record r { headx = true; head = add_int r.head 1 } in
        (done, o, record r1 { head = bit_and r1.head r1.mask; headx = false }))
