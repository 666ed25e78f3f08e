-- ===== src/Prelude/Pow.antt =====
-- Powers of two, and division with a known quotient and remainder.
use Prim.Native.Nat.{ℕ, zero, suc, ◌+◌, ◌*◌, ◌/◌, ◌%◌, ◌^◌, ◌<◌}
use mathlib.Core.Path.{◌≡◌, ap}
use native.Mathlib.Nat.{add-zero, add-suc, pow-suc, one-le-pow}
use native.Mathlib.Omega.{arith}

pub pow-add : (a b : ℕ) → 2 ^ (a + b) ≡ 2 ^ a * 2 ^ b
pow-add a zero = rw add-zero (omega arith)
pow-add a (suc b) = omega (
  arith,
  ap (λ (t : ℕ). 2 ^ t) (add-suc a b),
  pow-suc 2 (a + b),
  ap (λ (t : ℕ). 2 ^ a * t) (pow-suc 2 b),
  pow-add a b,
)

pub two-pow-pos : (k : ℕ) → 0 < 2 ^ k
two-pow-pos k = one-le-pow k 2 (omega arith)

-- The quotient and the remainder of a sum that shows both.
pub div_of_parts : (p q r : ℕ) → r < p → (q * p + r) / p ≡ q
div_of_parts p q r h = grind arith

pub mod_of_parts : (p q r : ℕ) → r < p → (q * p + r) % p ≡ r
mod_of_parts p q r h = grind arith

pub parts_unique :
    (p q r q' r' : ℕ) → r < p → r' < p → q * p + r ≡ q' * p + r' → (q ≡ q') × (r ≡ r')
parts_unique p q r q' r' h h' e = omega (
  arith,
  div_of_parts p q r h,
  div_of_parts p q' r' h',
  mod_of_parts p q r h,
  mod_of_parts p q' r' h',
  ap (λ (t : ℕ). t / p) e,
  ap (λ (t : ℕ). t % p) e,
)

pub lt-mul_of_lt : (a p q : ℕ) → a < p → 0 < q → a * q < p * q
lt-mul_of_lt a p q h k = grind arith

-- A number of `a` bits above one of `b` bits has `a + b` bits.
pub parts-lt : (a p b q : ℕ) → a < p → b < q → a * q + b < p * q
parts-lt a p b q h k = grind arith
