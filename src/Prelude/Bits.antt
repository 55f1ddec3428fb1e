-- ===== src/Prelude/Bits.antt =====
-- Masks and flags: `&` and `|` of C on words that are not negative.
use Prim.Native.Nat.{
  ℕ, zero, suc, ◌+◌, ◌-◌, ◌*◌, ◌/◌, ◌%◌, ◌^◌, ◌≤◌, ◌<◌, min, max, bit_and, bit_or, digits,
  bit_and-bitwise, bit_or-bitwise,
}
use mathlib.Core.Path.{◌≡◌, refl, ap, ◌∙◌}
use native.Mathlib.Nat.{pow-suc, one-le-pow}
use native.Mathlib.Omega.{arith}

-- The digit recursion behind both operations gives one value for every fuel that is enough.
module _ (rest : ℕ → ℕ) (join : ℕ → ℕ → ℕ) where
  enough : (a b m n : ℕ) → a ≤ m → a ≤ n → digits rest join m a b ≡ digits rest join n a b
  enough zero b zero zero hm hn = refl
  enough zero b zero (suc n) hm hn = refl
  enough zero b (suc m) zero hm hn = refl
  enough zero b (suc m) (suc n) hm hn = refl
  enough (suc a) b zero n hm hn = absurd (omega arith)
  enough (suc a) b (suc m) zero hm hn = absurd (omega arith)
  enough (suc a) b (suc m) (suc n) hm hn =
      omega (arith, enough (suc a / 2) (b / 2) m n (omega arith) (omega arith))

-- The lowest digit, and the others.
bit_or_halves : (a b : ℕ) → bit_or a b ≡ bit_or (a / 2) (b / 2) * 2 + max (a % 2) (b % 2)
bit_or_halves zero b = omega (arith, bit_or-bitwise 0 b, bit_or-bitwise 0 (b / 2))
bit_or_halves (suc a) b = omega (
  arith,
  bit_or-bitwise (suc a) b,
  bit_or-bitwise (suc a / 2) (b / 2),
  enough (λ y. y) max (suc a / 2) (b / 2) (suc a / 2) a (omega arith) (omega arith),
)

bit_and_halves : (a b : ℕ) → bit_and a b ≡ bit_and (a / 2) (b / 2) * 2 + min (a % 2) (b % 2)
bit_and_halves zero b = omega (arith, bit_and-bitwise 0 b, bit_and-bitwise 0 (b / 2))
bit_and_halves (suc a) b = omega (
  arith,
  bit_and-bitwise (suc a) b,
  bit_and-bitwise (suc a / 2) (b / 2),
  enough (λ y. 0) min (suc a / 2) (b / 2) (suc a / 2) a (omega arith) (omega arith),
)

-- An operand that is zero, by recursion on a bound of the other.
bit_and-zero_below : (n a : ℕ) → a ≤ n → bit_and a 0 ≡ 0
bit_and-zero_below n zero h = refl
bit_and-zero_below zero (suc a) h = absurd (omega arith)
bit_and-zero_below (suc n) (suc a) h =
    omega (arith, bit_and_halves (suc a) 0, bit_and-zero_below n (suc a / 2) (omega arith))

pub bit_and-zero : (a : ℕ) → bit_and a 0 ≡ 0
bit_and-zero a = bit_and-zero_below a a (omega arith)

bit_or-zero_below : (n a : ℕ) → a ≤ n → bit_or a 0 ≡ a
bit_or-zero_below n zero h = refl
bit_or-zero_below zero (suc a) h = absurd (omega arith)
bit_or-zero_below (suc n) (suc a) h =
    omega (arith, bit_or_halves (suc a) 0, bit_or-zero_below n (suc a / 2) (omega arith))

pub bit_or-zero : (a : ℕ) → bit_or a 0 ≡ a
bit_or-zero a = bit_or-zero_below a a (omega arith)

-- `q << (k + 1)` is even, and `q << k` its half.
double : (q k : ℕ) → q * 2 ^ suc k ≡ q * 2 ^ k + q * 2 ^ k
double q k = omega (arith, ap (λ (m : ℕ). q * m) (pow-suc 2 k))

low_of_sum : (k q r : ℕ) → r < 2 ^ k → bit_and (q * 2 ^ k + r) (2 ^ k - 1) ≡ r
low_of_sum zero q r h = rw bit_and-zero (omega arith)
low_of_sum (suc k) q r h =
    let mask : (2 ^ suc k - 1) / 2 ≡ 2 ^ k - 1 = omega (arith, pow-suc 2 k) in
    let odd : (2 ^ suc k - 1) % 2 ≡ 1 = omega (arith, pow-suc 2 k, one-le-pow k 2 (omega arith)) in
    let half : (q * 2 ^ suc k + r) / 2 ≡ q * 2 ^ k + r / 2 = omega (arith, double q k) in
    let bit : (q * 2 ^ suc k + r) % 2 ≡ r % 2 = omega (arith, double q k) in
    bit_and_halves (q * 2 ^ suc k + r) (2 ^ suc k - 1)
    ∙ rw (half, bit, mask, odd, low_of_sum k q (r / 2) (omega (arith, pow-suc 2 k))) (omega arith)

-- `a & (2^k - 1)` is the remainder by `2^k`.
pub bit_and_low : (k a : ℕ) → bit_and a (2 ^ k - 1) ≡ a % 2 ^ k
bit_and_low k a = ground (arith, one-le-pow k 2, low_of_sum k (a / 2 ^ k) (a % 2 ^ k))

-- `(q << k) | r` is a sum if `r` fits into `k` bits.
pub bit_or_join : (k q r : ℕ) → r < 2 ^ k → bit_or (q * 2 ^ k) r ≡ q * 2 ^ k + r
bit_or_join zero q r h =
    let none_left : r ≡ 0 = omega arith in rw none_left (bit_or-zero (q * 1) ∙ omega arith)
bit_or_join (suc k) q r h =
    let half : q * 2 ^ suc k / 2 ≡ q * 2 ^ k = omega (arith, double q k) in
    let bit : q * 2 ^ suc k % 2 ≡ 0 = omega (arith, double q k) in
    bit_or_halves (q * 2 ^ suc k) r
    ∙ rw (half, bit, bit_or_join k q (r / 2) (omega (arith, pow-suc 2 k)))
        (omega (arith, double q k))

-- The binary digit `k`, which holds a flag.
unfoldable pub flag : ℕ → ℕ → ℕ
flag zero a = a % 2
flag (suc k) a = flag k (a / 2)

pub flag-bit_or : (k a b : ℕ) → flag k (bit_or a b) ≡ max (flag k a) (flag k b)
unfolding flag
flag-bit_or zero a b = omega (arith, bit_or_halves a b)
flag-bit_or (suc k) a b =
    let half : bit_or a b / 2 ≡ bit_or (a / 2) (b / 2) = omega (arith, bit_or_halves a b) in
    rw half (flag-bit_or k (a / 2) (b / 2))

pub flag-bit_and : (k a b : ℕ) → flag k (bit_and a b) ≡ min (flag k a) (flag k b)
unfolding flag
flag-bit_and zero a b = omega (arith, bit_and_halves a b)
flag-bit_and (suc k) a b =
    let half : bit_and a b / 2 ≡ bit_and (a / 2) (b / 2) = omega (arith, bit_and_halves a b) in
    rw half (flag-bit_and k (a / 2) (b / 2))

-- `a & (1 << k)` is not zero exactly if the flag is set.
pub bit_and-flag : (k a : ℕ) → bit_and a (2 ^ k) ≡ flag k a * 2 ^ k
unfolding flag
bit_and-flag zero a = omega (arith, bit_and_halves a 1, bit_and-zero (a / 2))
bit_and-flag (suc k) a =
    let half : 2 ^ suc k / 2 ≡ 2 ^ k = omega (arith, pow-suc 2 k) in
    let bit : 2 ^ suc k % 2 ≡ 0 = omega (arith, pow-suc 2 k) in
    bit_and_halves a (2 ^ suc k)
    ∙ rw (half, bit, bit_and-flag k (a / 2)) (omega (arith, double (flag k (a / 2)) k))

pub flag-lt : (k a : ℕ) → flag k a < 2
unfolding flag
flag-lt zero a = omega arith
flag-lt (suc k) a = flag-lt k (a / 2)
