-- ===== src/RingT/Indices.antt =====
-- The arithmetic of the indices of include/pcaio/ringT.h: words of 32 bits, masked.
use native.Mathlib.Nat.{
  mod-eq_of_lt, mod-eq-sub-mod, mod-add-mod, add-mod-mod, mod-mod, add-mul-mod_self_right, pow-suc,
  one-le-pow, mod-lt, add_comm, add-mod_right, pow-le-pow_right,
}
use native.Mathlib.Decide.{dec_lt}
use pcaio.Prelude.{ℕ, zero, suc, ◌+◌, ◌-◌, ◌*◌, ◌/◌, ◌%◌, ◌^◌, ◌≤◌, ◌<◌, ◌≡◌, ap, sym, ◌∙◌, arith}
use pcaio.RingT.{sub_int}

pow-add : (k j : ℕ) → 2 ^ (j + k) ≡ 2 ^ j * 2 ^ k
pow-add k zero = let e : 0 + k ≡ k = omega arith in rw e (omega arith)
pow-add k (suc j) =
    let e : suc j + k ≡ suc (j + k) = omega arith in
    ap (λ (t : ℕ). 2 ^ t) e
    ∙ omega (arith, pow-suc 2 (j + k), pow-add k j, ap (λ (t : ℕ). t * 2 ^ k) (pow-suc 2 j))

word_split : (k : ℕ) → k ≤ 32 → 2 ^ (32 - k) * 2 ^ k ≡ 2 ^ 32
word_split k h =
    let e : 32 - k + k ≡ 32 = omega arith in sym (pow-add k (32 - k)) ∙ ap (λ (t : ℕ). 2 ^ t) e

-- Reducing to 32 bits first does not matter to a remainder by a smaller power of two.
pub wrap_mod : (k x : ℕ) → k ≤ 32 → x % 2 ^ 32 % 2 ^ k ≡ x % 2 ^ k
wrap_mod k x h =
    let whole : x % 2 ^ 32 + x / 2 ^ 32 * 2 ^ (32 - k) * 2 ^ k ≡ x =
      omega (arith, ap (λ (t : ℕ). x / 2 ^ 32 * t) (word_split k h)) in
    sym (add-mul-mod_self_right (x % 2 ^ 32) (x / 2 ^ 32 * 2 ^ (32 - k)) (2 ^ k))
    ∙ ap (λ (t : ℕ). t % 2 ^ k) whole

-- A sum with a word of 32 bits is, to the mask, as without it.
pub add_word : (k x : ℕ) → k ≤ 32 → (x + 2 ^ 32) % 2 ^ k ≡ x % 2 ^ k
add_word k x h =
    sym (wrap_mod k (x + 2 ^ 32) h)
    ∙ ap (λ (t : ℕ). t % 2 ^ k) (let e : (x + 2 ^ 32) % 2 ^ 32 ≡ x % 2 ^ 32 = omega arith in e)
    ∙ wrap_mod k x h

-- On the residues below `m` adding `h` can be undone.
add_cancel_below : (m a b h : ℕ) → a < m → b < m → h < m → (a + h) % m ≡ (b + h) % m → a ≡ b
add_cancel_below m a b h ha hb hh e = elim (dec_lt (a + h) m) [
  | yes p ↦ elim (dec_lt (b + h) m) [
    | yes q ↦ omega (arith, mod-eq_of_lt p, mod-eq_of_lt q)
    | no q ↦ omega (
      arith,
      mod-eq_of_lt p,
      mod-eq-sub-mod {n = b + h} {m = m} (omega arith),
      mod-eq_of_lt {n = b + h - m} {m = m} (omega arith),
    )
  ]
  | no p ↦ elim (dec_lt (b + h) m) [
    | yes q ↦ omega (
      arith,
      mod-eq_of_lt q,
      mod-eq-sub-mod {n = a + h} {m = m} (omega arith),
      mod-eq_of_lt {n = a + h - m} {m = m} (omega arith),
    )
    | no q ↦ omega (
      arith,
      mod-eq-sub-mod {n = a + h} {m = m} (omega arith),
      mod-eq_of_lt {n = a + h - m} {m = m} (omega arith),
      mod-eq-sub-mod {n = b + h} {m = m} (omega arith),
      mod-eq_of_lt {n = b + h - m} {m = m} (omega arith),
    )
  ]
]

add_cancel : (m a b h : ℕ) → a < m → b < m → (a + h) % m ≡ (b + h) % m → a ≡ b
add_cancel m a b h ha hb e =
    add_cancel_below m a b (h % m) ha hb (mod-lt h (omega arith))
      (add-mod-mod a h m ∙ e ∙ sym (add-mod-mod b h m))

pub two_pow_pos : (k : ℕ) → 0 < 2 ^ k
two_pow_pos k = one-le-pow k 2 (omega arith)

two_pow_le : (k : ℕ) → k ≤ 30 → 2 ^ k ≤ 2 ^ 30
two_pow_le k h = pow-le-pow_right {n = 2} (omega arith) h

-- `tail - head`, masked, is the number of elements between them.
pub distance :
    (k h t n : ℕ) → k ≤ 30 → h < 2 ^ k → t ≡ (h + n) % 2 ^ k → n < 2 ^ k → sub_int t h % 2 ^ k ≡ n
distance k h t n small hh e hn =
    wrap_mod k word (omega arith)
    ∙ add_cancel m (word % m) n h (mod-lt word (two_pow_pos k)) hn (
        mod-add-mod word m h
        ∙ ap (λ (x : ℕ). x % m) sum
        ∙ add_word k t (omega arith)
        ∙ ap (λ (x : ℕ). x % m) e
        ∙ mod-mod (h + n) m
        ∙ ap (λ (x : ℕ). x % m) (add_comm h n))
  where
    m : ℕ
    m = 2 ^ k

    word : ℕ
    word = t + 2 ^ 32 - h

    sum : word + h ≡ t + 2 ^ 32
    sum = omega (arith, two_pow_le k small)

-- `head - tail - 1`, masked, is the number of places that are left.
pub distance_left :
    (k h t n : ℕ)
    → k ≤ 30
    → h < 2 ^ k
    → t ≡ (h + n) % 2 ^ k
    → n < 2 ^ k
    → sub_int (sub_int h t) 1 % 2 ^ k ≡ 2 ^ k - 1 - n
distance_left k h t n small hh e hn =
    wrap_mod k outer (omega arith)
    ∙ add_cancel m (outer % m) (m - 1 - n) (t + 1) (mod-lt outer (two_pow_pos k))
        (omega (arith, two_pow_pos k)) (left ∙ sym right)
  where
    m : ℕ
    m = 2 ^ k

    inner : ℕ
    inner = h + 2 ^ 32 - t

    outer : ℕ
    outer = inner % 2 ^ 32 + 2 ^ 32 - 1

    t_lt : t < m
    t_lt = rw e (mod-lt (h + n) (two_pow_pos k))

    sum : outer + (t + 1) ≡ inner % 2 ^ 32 + (t + 2 ^ 32)
    sum = omega arith

    sum' : inner + (t + 2 ^ 32) ≡ h + 2 ^ 32 + 2 ^ 32
    sum' = omega (arith, two_pow_le k small)

    left : (outer % m + (t + 1)) % m ≡ h % m
    left =
        mod-add-mod outer m (t + 1)
        ∙ ap (λ (x : ℕ). x % m) sum
        ∙ sym (mod-add-mod (inner % 2 ^ 32) m (t + 2 ^ 32))
        ∙ ap (λ (x : ℕ). (x + (t + 2 ^ 32)) % m) (wrap_mod k inner (omega arith))
        ∙ mod-add-mod inner m (t + 2 ^ 32)
        ∙ ap (λ (x : ℕ). x % m) sum'
        ∙ add_word k (h + 2 ^ 32) (omega arith)
        ∙ add_word k h (omega arith)

    regroup : m - 1 - n + (t + 1) ≡ m - n + t
    regroup = omega (arith, two_pow_pos k)

    regroup' : m - n + (h + n) ≡ h + m
    regroup' = omega arith

    right : (m - 1 - n + (t + 1)) % m ≡ h % m
    right =
        ap (λ (x : ℕ). x % m) regroup
        ∙ ap (λ (x : ℕ). (m - n + x) % m) e
        ∙ add-mod-mod (m - n) (h + n) m
        ∙ ap (λ (x : ℕ). x % m) regroup'
        ∙ add-mod_right h m
