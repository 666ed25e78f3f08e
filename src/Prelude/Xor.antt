-- ===== src/Prelude/Xor.antt =====
-- Exclusive or: its laws on numbers of a given width, and how it commutes with shifts.
use Prim.Native.Nat.{ℕ, zero, suc, ◌+◌, ◌*◌, ◌/◌, ◌%◌, ◌^◌, ◌<◌, bit_xor, bit_xor-bitwise}
use mathlib.Core.Path.{◌≡◌, refl, ap, ◌∙◌}
use native.Mathlib.Nat.{pow-suc}
use native.Mathlib.Omega.{arith}
use netc.Prelude.Bits.{bit_xor-lowest}

pub bit_xor-half : (a b : ℕ) → bit_xor a b / 2 ≡ bit_xor (a / 2) (b / 2)
bit_xor-half a b = omega (arith, bit_xor-lowest a b)

pub bit_xor-parity : (a b : ℕ) → bit_xor a b % 2 ≡ (a + b) % 2
bit_xor-parity a b = omega (arith, bit_xor-lowest a b)

pub zero-bit_xor : (b : ℕ) → bit_xor 0 b ≡ b
zero-bit_xor b = simp bit_xor-bitwise refl

pub bit_xor_comm : (n a b : ℕ) → a < 2 ^ n → b < 2 ^ n → bit_xor a b ≡ bit_xor b a
bit_xor_comm zero zero zero h k = refl
bit_xor_comm zero zero (suc b) h k = absurd (omega arith)
bit_xor_comm zero (suc a) b h k = absurd (omega arith)
bit_xor_comm (suc n) a b h k = omega (
  arith,
  pow-suc 2 n,
  bit_xor-lowest a b,
  bit_xor-lowest b a,
  bit_xor_comm n (a / 2) (b / 2) (omega (arith, pow-suc 2 n)) (omega (arith, pow-suc 2 n)),
)

pub bit_xor_assoc :
    (n a b c : ℕ)
    → a < 2 ^ n
    → b < 2 ^ n
    → c < 2 ^ n
    → bit_xor (bit_xor a b) c ≡ bit_xor a (bit_xor b c)
bit_xor_assoc zero zero zero zero h k l = refl
bit_xor_assoc zero zero zero (suc c) h k l = absurd (omega arith)
bit_xor_assoc zero zero (suc b) c h k l = absurd (omega arith)
bit_xor_assoc zero (suc a) b c h k l = absurd (omega arith)
bit_xor_assoc (suc n) a b c h k l =
    let half =
      bit_xor_assoc n (a / 2) (b / 2) (c / 2) (omega (arith, pow-suc 2 n))
        (omega (arith, pow-suc 2 n)) (omega (arith, pow-suc 2 n)) in
    let left : bit_xor (bit_xor a b / 2) (c / 2) ≡ bit_xor (bit_xor (a / 2) (b / 2)) (c / 2) =
      ap (λ t. bit_xor t (c / 2)) (bit_xor-half a b) in
    let right : bit_xor (a / 2) (bit_xor b c / 2) ≡ bit_xor (a / 2) (bit_xor (b / 2) (c / 2)) =
      ap (bit_xor (a / 2)) (bit_xor-half b c) in
    omega (
      arith,
      half,
      left,
      right,
      bit_xor-lowest (bit_xor a b) c,
      bit_xor-lowest a (bit_xor b c),
      bit_xor-parity a b,
      bit_xor-parity b c,
    )

-- Digits that do not overlap are put together.
pub bit_xor_low_high : (k q r : ℕ) → r < 2 ^ k → bit_xor r (q * 2 ^ k) ≡ q * 2 ^ k + r
bit_xor_low_high zero q zero h = zero-bit_xor (q * 2 ^ 0) ∙ omega arith
bit_xor_low_high zero q (suc r) h = absurd (omega arith)
bit_xor_low_high (suc k) q r h =
    let twice : q * 2 ^ suc k ≡ q * 2 ^ k * 2 =
      omega (arith, ap (λ (t : ℕ). q * t) (pow-suc 2 k)) in
    let half : q * 2 ^ suc k / 2 ≡ q * 2 ^ k = omega arith in
    omega (
      arith,
      twice,
      pow-suc 2 k,
      bit_xor-lowest r (q * 2 ^ suc k),
      ap (bit_xor (r / 2)) half,
      bit_xor_low_high k q (r / 2) (omega (arith, pow-suc 2 k)),
    )
