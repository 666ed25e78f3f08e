-- ===== src/Prelude/Bits.antt =====
-- The bit operations at variables: an equation for the lowest digit of each, then the laws that
-- the components use, at every width.
use Prim.Native.Nat.{ℕ, zero, suc, ◌+◌, ◌-◌, ◌*◌, ◌/◌, ◌%◌, ◌^◌, ◌≤◌, ◌<◌, min, max, differ}
use Prim.Native.Nat.{bit_and, bit_or, bit_xor}
use Prim.Native.Nat.{digits, bit_and-bitwise, bit_or-bitwise, bit_xor-bitwise}
use mathlib.Core.Path.{◌≡◌, refl, ap}
use native.Mathlib.Nat.{pow-suc, one-le-pow, div-add-mod'}
use native.Mathlib.Omega.{arith}

-- The number of digits to go does not matter once it reaches the first argument.
module _ (z : ℕ → ℕ) (f : ℕ → ℕ → ℕ) where
  digits_enough : (k l a b : ℕ) → a ≤ k → a ≤ l → digits z f k a b ≡ digits z f l a b
  digits_enough zero zero a b ak al = refl
  digits_enough zero (suc l) zero b ak al = refl
  digits_enough zero (suc l) (suc a) b ak al = absurd (omega arith)
  digits_enough (suc k) zero zero b ak al = refl
  digits_enough (suc k) zero (suc a) b ak al = absurd (omega arith)
  digits_enough (suc k) (suc l) zero b ak al = refl
  digits_enough (suc k) (suc l) (suc a) b ak al =
      ap (λ t. t * 2 + f (suc a % 2) (b % 2))
        (digits_enough k l (suc a / 2) (b / 2) (omega arith) (omega arith))

  digits_lowest :
      (a b : ℕ)
      → digits z f (suc a) (suc a) b
        ≡ digits z f (suc a / 2) (suc a / 2) (b / 2) * 2 + f (suc a % 2) (b % 2)
  digits_lowest a b =
      ap (λ t. t * 2 + f (suc a % 2) (b % 2))
        (digits_enough a (suc a / 2) (suc a / 2) (b / 2) (omega arith) (omega arith))

pub bit_and-lowest : (a b : ℕ) → bit_and a b ≡ bit_and (a / 2) (b / 2) * 2 + min (a % 2) (b % 2)
bit_and-lowest zero b = simp bit_and-bitwise (omega arith)
bit_and-lowest (suc a) b = simp bit_and-bitwise (digits_lowest (λ y. 0) min a b)

pub bit_or-lowest : (a b : ℕ) → bit_or a b ≡ bit_or (a / 2) (b / 2) * 2 + max (a % 2) (b % 2)
bit_or-lowest zero b = simp bit_or-bitwise (omega arith)
bit_or-lowest (suc a) b = simp bit_or-bitwise (digits_lowest (λ y. y) max a b)

-- Exclusive or of the lowest digits is their sum without the carry.
differ-mod : (a b : ℕ) → a < 2 → b < 2 → differ a b ≡ (a + b) % 2
differ-mod zero b h k = omega arith
differ-mod (suc zero) zero h k = refl
differ-mod (suc zero) (suc zero) h k = refl
differ-mod (suc zero) (suc (suc b)) h k = absurd (omega arith)
differ-mod (suc (suc a)) b h k = absurd (omega arith)

pub bit_xor-lowest : (a b : ℕ) → bit_xor a b ≡ bit_xor (a / 2) (b / 2) * 2 + (a + b) % 2
bit_xor-lowest zero b = simp bit_xor-bitwise (omega arith)
bit_xor-lowest (suc a) b = simp bit_xor-bitwise (
    omega (
      arith,
      digits_lowest (λ y. y) differ a b,
      differ-mod (suc a % 2) (b % 2) (omega arith) (omega arith),
    ))

-- What two numbers below `2 ^ n` make is below `2 ^ n`.
pub bit_xor-lt : (n a b : ℕ) → a < 2 ^ n → b < 2 ^ n → bit_xor a b < 2 ^ n
bit_xor-lt zero zero zero h k = omega arith
bit_xor-lt zero zero (suc b) h k = absurd (omega arith)
bit_xor-lt zero (suc a) b h k = absurd (omega arith)
bit_xor-lt (suc n) a b h k = omega (
  arith,
  pow-suc 2 n,
  bit_xor-lowest a b,
  bit_xor-lt n (a / 2) (b / 2) (omega (arith, pow-suc 2 n)) (omega (arith, pow-suc 2 n)),
)

pub bit_xor_cancel : (n a b : ℕ) → a < 2 ^ n → b < 2 ^ n → bit_xor (bit_xor a b) b ≡ a
bit_xor_cancel zero zero zero h k = refl
bit_xor_cancel zero zero (suc b) h k = absurd (omega arith)
bit_xor_cancel zero (suc a) b h k = absurd (omega arith)
bit_xor_cancel (suc n) a b h k = ground (
  arith,
  bit_xor-lowest a b,
  bit_xor-lowest (bit_xor a b) b,
  halves,
  bit_xor_cancel n (a / 2) (b / 2) (omega (arith, pow-suc 2 n)) (omega (arith, pow-suc 2 n)),
)
  where
    halves : bit_xor a b / 2 ≡ bit_xor (a / 2) (b / 2)
    halves = omega (arith, bit_xor-lowest a b)

bit_or-zero : (n a : ℕ) → a ≤ n → bit_or a 0 ≡ a
bit_or-zero n zero h = refl
bit_or-zero zero (suc a) h = absurd (omega arith)
bit_or-zero (suc n) (suc a) h =
    omega (arith, bit_or-lowest (suc a) 0, bit_or-zero n (suc a / 2) (omega arith))

-- `(q << k) | r` and `r | (q << k)` are sums where `r` has at most `k` bits.
pub bit_or_high_low : (k q r : ℕ) → r < 2 ^ k → bit_or (q * 2 ^ k) r ≡ q * 2 ^ k + r
bit_or_high_low zero q zero h = ground (arith, bit_or-zero q q)
bit_or_high_low zero q (suc r) h = absurd (omega arith)
bit_or_high_low (suc k) q r h = ground (
  arith,
  bit_or-lowest (q * 2 ^ suc k) r,
  twice,
  bit_or_high_low k q (r / 2) (omega (arith, pow-suc 2 k)),
)
  where
    twice : q * 2 ^ suc k ≡ q * 2 ^ k * 2
    twice = omega (arith, ap (λ (t : ℕ). q * t) (pow-suc 2 k))

pub bit_or_low_high : (k q r : ℕ) → r < 2 ^ k → bit_or r (q * 2 ^ k) ≡ q * 2 ^ k + r
bit_or_low_high zero q zero h = omega (arith, bit_or-bitwise 0 (q * 1))
bit_or_low_high zero q (suc r) h = absurd (omega arith)
bit_or_low_high (suc k) q r h = ground (
  arith,
  bit_or-lowest r (q * 2 ^ suc k),
  twice,
  bit_or_low_high k q (r / 2) (omega (arith, pow-suc 2 k)),
)
  where
    twice : q * 2 ^ suc k ≡ q * 2 ^ k * 2
    twice = omega (arith, ap (λ (t : ℕ). q * t) (pow-suc 2 k))

bit_and-zero : (n a : ℕ) → a ≤ n → bit_and a 0 ≡ 0
bit_and-zero n zero h = refl
bit_and-zero zero (suc a) h = absurd (omega arith)
bit_and-zero (suc n) (suc a) h =
    omega (arith, bit_and-lowest (suc a) 0, bit_and-zero n (suc a / 2) (omega arith))

bit_and-drops_high : (k q r : ℕ) → r < 2 ^ k → bit_and (q * 2 ^ k + r) (2 ^ k - 1) ≡ r
bit_and-drops_high zero q r h = omega (arith, bit_and-zero (q * 1 + r) (q * 1 + r) (omega arith))
bit_and-drops_high (suc k) q r h = ground (
  arith,
  bit_and-lowest (q * 2 ^ suc k + r) (2 ^ suc k - 1),
  twice,
  pow-suc 2 k,
  one-le-pow k 2,
  bit_and-drops_high k q (r / 2) (omega (arith, pow-suc 2 k)),
)
  where
    twice : q * 2 ^ suc k ≡ q * 2 ^ k * 2
    twice = omega (arith, ap (λ (t : ℕ). q * t) (pow-suc 2 k))

-- A mask of `k` low bits is the remainder by `2 ^ k`.
pub bit_and_mask : (k a : ℕ) → bit_and a (2 ^ k - 1) ≡ a % 2 ^ k
bit_and_mask k a =
    ground
      (arith, one-le-pow k 2, bit_and-drops_high k (a / 2 ^ k) (a % 2 ^ k), div-add-mod' a (2 ^ k))
