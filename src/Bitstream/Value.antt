-- ===== src/Bitstream/Value.antt =====
-- A byte string as a little-endian number.
use netc.Prelude.{ℕ, zero, suc, ◌+◌, ◌*◌, ◌^◌, ◌<◌, ◌≡◌, arith, ap}
use netc.Prelude.{List, [], ◌∷◌, ◌++◌, All, IsByte, length, get_or, take, pow-add}

abbrev pub value : List ℕ → ℕ
value [] = 0
value (x ∷ xs) = x + value xs * 256

abbrev pub bit_size : List ℕ → ℕ
bit_size xs = 8 * length xs

bit_size-cons : (n : ℕ) → 2 ^ (8 * suc n) ≡ 2 ^ (8 * n) * 256
bit_size-cons n = let e : 8 * suc n ≡ 8 * n + 8 = omega arith in rw e (pow-add (8 * n) 8)

pub value-append : (xs ys : List ℕ) → value (xs ++ ys) ≡ value xs + value ys * 2 ^ bit_size xs
value-append [] ys = omega arith
value-append (x ∷ xs) ys = omega (
  arith,
  value-append xs ys,
  ap (λ (t : ℕ). value ys * t) (bit_size-cons (length xs)),
  ap (λ (t : ℕ). t * 256) (value-append xs ys),
)

pub value-lt : (xs : List ℕ) → All IsByte xs → value xs < 2 ^ bit_size xs
value-lt [] h = omega arith
value-lt (x ∷ xs) h = omega (arith, bit_size-cons (length xs), value-lt xs h.1)

-- The value below index `suc n` splits at the byte with index `n`.
pub value-take-suc :
    (n : ℕ) (xs : List ℕ)
    → n < length xs
    → value (take (suc n) xs) ≡ value (take n xs) + get_or xs n 0 * 2 ^ (8 * n)
value-take-suc n [] h = absurd (omega arith)
value-take-suc zero (x ∷ xs) h = omega arith
value-take-suc (suc n) (x ∷ xs) h =
    omega (
      arith,
      value-take-suc n xs (omega arith),
      ap (λ (t : ℕ). get_or xs n 0 * t) (bit_size-cons n),
    )
