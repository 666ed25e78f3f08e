-- ===== src/Tans/Log.antt =====
-- `floor_log2_u32` of src/algo/netc_tans.c, and the arithmetic of one coding step.
use netc.Prelude.{ℕ, zero, suc, ◌+◌, ◌-◌, ◌*◌, ◌/◌, ◌^◌, ◌≤◌, ◌<◌, ◌≡◌, ap, arith, ◌∙◌}
use netc.Prelude.{◌⊎◌, inl, inr, leb, ◌==◌, ◌||◌, if◌then◌else◌, pow-add, two-pow-pos}
use netc.Tans.Table.{floor_log2_loop, floor_log2_u32}
use native.Mathlib.Nat.{zero-add, le-div_iff_mul-le, pow-le-pow_right, div-lt_iff_lt-mul}
use native.Mathlib.Decide.{dec_lt}

-- `m` is the position of the highest one of `v`.
abbrev pub IsLog : ℕ → ℕ → Type 0
IsLog v m = (2 ^ m ≤ v) × (v < 2 ^ (m + 1))

floor_log2_loop_lem :
    (fuel v n : ℕ)
    → 0 < v
    → v < 2 ^ (fuel + 1)
    → (m : ℕ) × (floor_log2_loop fuel v n ≡ n + m) × IsLog v m
unfolding floor_log2_loop
floor_log2_loop_lem zero v n h k = (0, omega arith, omega arith)
floor_log2_loop_lem (suc fuel) v n h k = elim (dec_lt 1 v) [
  | yes more ↦
      let half : 2 ^ (suc fuel + 1) ≡ 2 ^ (fuel + 1) * 2 =
        pow-add (suc fuel) 1 ∙ ap (λ (t : ℕ). t * 2) (ap (λ (t : ℕ). 2 ^ t) (omega arith)) in
      let (m, e, log) = floor_log2_loop_lem fuel (v / 2) (n + 1) (omega arith) (omega arith) in
      (
        m + 1,
        ground (arith, e),
        (omega (arith, log, pow-add m 1), omega (arith, log, pow-add (m + 1) 1)),
      )
  | no one ↦ (0, ground arith, omega arith)
]

-- On a positive 32-bit number `floor_log2_u32` is the position of the highest one.
pub floor_log2_u32-IsLog : (v : ℕ) → 0 < v → v < 2 ^ 32 → IsLog v (floor_log2_u32 v)
unfolding floor_log2_u32
floor_log2_u32-IsLog v h k =
    let (m, e, log) = floor_log2_loop_lem 31 v 0 h k in rw (e, zero-add) log

pub IsLog-unique : (v k m : ℕ) → IsLog v k → IsLog v m → k ≡ m
IsLog-unique v k m hk hm = elim (dec_lt k m) [
  | yes lt ↦ absurd (
      omega
        (arith, hk, hm, pow-le-pow_right {n = 2} (omega arith) {i = k + 1} {j = m} (omega arith)))
  | no ge ↦ elim (dec_lt m k) [
    | yes lt ↦ absurd (
        omega
          (arith, hk, hm, pow-le-pow_right {n = 2} (omega arith) {i = m + 1} {j = k} (omega arith)))
    | no le ↦ omega arith
  ]
]

pub IsLog-le : (v k m : ℕ) → IsLog v k → v ≤ 2 ^ m → k ≤ m
IsLog-le v k m h le = elim (dec_lt m k) [
  | yes lt ↦ absurd (
      omega (
        arith,
        h,
        two-pow-pos m,
        pow-add m 1,
        pow-le-pow_right {n = 2} (omega arith) {i = m + 1} {j = k} (omega arith),
      ))
  | no ok ↦ omega arith
]

-- A state of `log + 1` bits shifted right by `nb`.
shifted-IsLog : (log nb x : ℕ) → nb ≤ log → IsLog x log → IsLog (x / 2 ^ nb) (log - nb)
shifted-IsLog log nb x h (lo, hi) =
    let split : 2 ^ log ≡ 2 ^ (log - nb) * 2 ^ nb =
      ap (λ (t : ℕ). 2 ^ t) (omega arith) ∙ pow-add (log - nb) nb in
    let split' : 2 ^ (log + 1) ≡ 2 ^ (log - nb + 1) * 2 ^ nb =
      ap (λ (t : ℕ). 2 ^ t) (omega arith) ∙ pow-add (log - nb + 1) nb in
    (
      (le-div_iff_mul-le (two-pow-pos nb)).1 (omega arith),
      (div-lt_iff_lt-mul (two-pow-pos nb)).1 (omega arith),
    )

-- The number of bits that a step flushes, from a symbol's frequency and the state.
abbrev pub flush_bits : ℕ → ℕ → ℕ → ℕ
flush_bits nb_hi lower x = if nb_hi == 0 || leb lower x then nb_hi else nb_hi - 1

pub record IsStep (log f x nb : ℕ) : Type 0 where
  pub few : nb ≤ log
  pub least : f ≤ x / 2 ^ nb
  pub most : x / 2 ^ nb < f + f
  pub log_is : IsLog (x / 2 ^ nb) (log - nb)

high-IsStep :
    (log f x fl : ℕ)
    → IsLog f fl
    → fl ≤ log
    → f ≤ 2 ^ log
    → IsLog x log
    → ((log - fl ≡ 0) ⊎ (f * 2 ^ (log - fl) ≤ x))
    → IsStep log f x (log - fl)
high-IsStep log f x fl hf hl hs hx when =
    let nb = log - fl in
    let shifted = shifted-IsLog log nb x (omega arith) hx in
    let same : 2 ^ (log - nb + 1) ≡ 2 ^ fl * 2 =
      ap (λ (t : ℕ). 2 ^ t) (omega arith) ∙ pow-add fl 1 in
    record {
      few = omega arith;
      least = elim when [
        | inl whole ↦
            let top : 2 ^ fl ≡ 2 ^ log = ap (λ (t : ℕ). 2 ^ t) (omega arith) in
            let one : x / 2 ^ nb ≡ x = ap (λ (t : ℕ). x / 2 ^ t) whole ∙ omega arith in
            omega (arith, hx, hf)
        | inr above ↦ (le-div_iff_mul-le (two-pow-pos nb)).1 above
      ];
      most = omega (arith, shifted, hf);
      log_is = shifted;
    }

low-IsStep :
    (log f x fl : ℕ)
    → IsLog f fl
    → fl < log
    → IsLog x log
    → x < f * 2 ^ (log - fl)
    → IsStep log f x (log - fl - 1)
low-IsStep log f x fl hf hl hx below =
    let nb = log - fl - 1 in
    let shifted = shifted-IsLog log nb x (omega arith) hx in
    let same : 2 ^ (log - nb) ≡ 2 ^ (fl + 1) = ap (λ (t : ℕ). 2 ^ t) (omega arith) in
    let split : 2 ^ (log - fl) ≡ 2 ^ nb * 2 = ap (λ (t : ℕ). 2 ^ t) (omega arith) ∙ pow-add nb 1 in
    record {
      few = omega arith;
      least = omega (arith, shifted, hf);
      most = (div-lt_iff_lt-mul (two-pow-pos nb)).1 (omega (arith, ap (λ (t : ℕ). f * t) split));
      log_is = shifted;
    }

-- For a symbol of frequency `f`, at most the table size, and a state of `log + 1` bits: the state
-- shifted right lies in `[f, 2 * f)`, and its logarithm gives the shift back.
pub flush_bits-IsStep :
    (log f x fl : ℕ)
    → IsLog f fl
    → f ≤ 2 ^ log
    → IsLog x log
    → IsStep log f x (flush_bits (log - fl) (f * 2 ^ (log - fl)) x)
flush_bits-IsStep log f x fl hf hs hx = ground (
  arith,
  IsLog-le f fl log hf hs,
  high-IsStep log f x fl hf (IsLog-le f fl log hf hs) hs hx,
  low-IsStep log f x fl hf,
)
