-- ===== src/Normalize/Sum.antt =====
-- The sum of scaled frequencies: `freq_normalize` of src/core/netc_dict.c.
use netc.Prelude.{
  ℕ, zero, suc, ◌+◌, ◌-◌, ◌*◌, ◌/◌, ◌^◌, ◌<◌, ◌≤◌, ◌≡◌, refl, ap, arith, min, ltb, ◌==◌,
}
use netc.Prelude.{true, false, if◌then◌else◌, u16, u32, u64}
use netc.Tans.Params.{params_12}
use netc.Tans.Table.{update}
use netc.Tans.Spread.{below, below-next}
use netc.Tans.Built.{IsNormalized}
use netc.Normalize.{Tally, bonus, tally, freq_normalize}
use native.Mathlib.Decide.{ℕ_discrete, dec_lt}
use native.Mathlib.Nat.{add-mul, mul-le-mul_right, div-mul-le_self}

below-suc : (f : ℕ → ℕ) (s : ℕ) → below f (suc s) ≡ below f s + f s
unfolding below
below-suc f s = refl

-- The sum after one entry has changed.
below-same : (f : ℕ → ℕ) (i v n : ℕ) → n ≤ i → below (update f i v) n ≡ below f n
unfolding below
below-same f i v zero h = refl
below-same f i v (suc n) h = ground (arith, below-same f i v n)

below-update : (f : ℕ → ℕ) (i v n : ℕ) → i < n → below (update f i v) n + f i ≡ below f n + v
unfolding below
below-update f i v zero h = absurd (omega arith)
below-update f i v (suc n) h = elim (ℕ_discrete i n) [
  | yes same ↦ ground (arith, below-same f i v n, ap f same)
  | no other ↦ ground (arith, below-update f i v n)
]

ones : (n : ℕ) → below (λ _. 1) n ≡ n
unfolding below
ones zero = refl
ones (suc n) = omega (arith, ones n)

sixteens : below (λ _. 16) 256 ≡ 4096
unfolding below
sixteens = refl

normalized :
    (f : ℕ → ℕ) → below f 256 ≡ 4096 → ((i : ℕ) → 256 ≤ i → f i ≡ 1) → IsNormalized params_12 f
normalized f e later = record {
  words = λ s. elim (dec_lt s 256) [
    | yes low ↦ omega (arith, below-next f s 256 low)
    | no high ↦ omega (arith, later s (omega arith))
  ];
  sums = e;
}

module _ (raw : ℕ → ℕ) (total : ℕ) (some_total : 0 < total) (sums : below raw 256 ≡ total)
    (fits : total < 2 ^ 52) where
  record IsTally (s : ℕ) (t : Tally) : Type 0 where
    sum_is : below t.out 256 ≡ t.table_sum
    later : (i : ℕ) → s ≤ i → t.out i ≡ 1
    positive : (i : ℕ) → 0 < t.out i
    max_is : t.max_sym < 256
    at_least : 256 ≤ t.table_sum
    share : (t.table_sum - 256) * total ≤ 3840 * below raw s

  -- A share of at most the whole budget.
  within : (m : ℕ) → m * total ≤ 3840 * total → m ≤ 3840
  within m le = elim (dec_lt 3840 m) [
    | yes more ↦
        let over : 3841 ≤ m = omega arith in absurd (omega (arith, mul-le-mul_right total over))
    | no ok ↦ omega arith
  ]

  raw-le : (s : ℕ) → s < 256 → below raw s + raw s ≤ total
  raw-le s h = omega (arith, below-next raw s 256 h)

  bonus-share :
      (s : ℕ) → s < 256 → (bonus raw total s * total ≤ 3840 * raw s) × (bonus raw total s ≤ 0xfffe)
  unfolding bonus
  bonus-share s h =
      let whole : u64 (raw s * 3840) ≡ raw s * 3840 = omega (arith, raw-le s h) in
      let q = raw s * 3840 / total in
      let capped : min q 0xfffe ≤ q = omega arith in
      let least = mul-le-mul_right total capped in
      rw whole (omega (arith, least, div-mul-le_self (raw s * 3840) total), omega arith)

  counted :
      (s : ℕ)
      → s < 256
      → (t : Tally) → IsTally s t
      → IsTally (suc s) (record {
        out = update t.out s (u16 (1 + u32 (bonus raw total s)));
        table_sum = u32 (t.table_sum + u32 (bonus raw total s));
        max_sym = if ltb t.max_val (u16 (1 + u32 (bonus raw total s))) then s else t.max_sym;
        max_val =
            if ltb t.max_val (u16 (1 + u32 (bonus raw total s)))
            then u16 (1 + u32 (bonus raw total s))
            else t.max_val;
      })
  counted s h t it =
      let b = bonus raw total s in
      let (share, small) = bonus-share s h in
      let known : t.table_sum ≤ 4096 =
        omega (arith, within (t.table_sum - 256) (omega (arith, it.share, raw-le s h))) in
      let value : u16 (1 + u32 b) ≡ 1 + b = omega arith in
      let sum : u32 (t.table_sum + u32 b) ≡ t.table_sum + b = omega arith in
      rw (value, sum)
        (record {
          sum_is =
              omega
                (arith, below-update t.out s (1 + b) 256 h, it.later s (omega arith), it.sum_is);
          later = λ i hi. ground (arith, it.later i);
          positive = λ i. ground (arith, it.positive i);
          max_is = ground (arith, it.max_is);
          at_least = omega (arith, it.at_least);
          share = omega (
            arith,
            below-suc raw s,
            add-mul (t.table_sum - 256) b total,
            ap (λ (u : ℕ). u * total) {x = t.table_sum + b - 256} {y = t.table_sum - 256 + b}
                (omega arith),
          );
        })

  tally-IsTally : (s : ℕ) → s ≤ 256 → IsTally s (tally raw total s)
  unfolding tally below
  tally-IsTally zero h = record {
    sum_is = ones 256;
    later = λ i hi. refl;
    positive = λ i. omega arith;
    max_is = omega arith;
    at_least = omega arith;
    share = omega arith;
  }
  tally-IsTally (suc s) h = elim (ℕ_discrete (raw s) 0) [
    | yes z ↦
        let skip : (raw s == 0) ≡ true = ground arith in
        let it = tally-IsTally s (omega arith) in
        rw skip (record {
          sum_is = it.sum_is;
          later = λ i hi. it.later i (omega arith);
          positive = it.positive;
          max_is = it.max_is;
          at_least = it.at_least;
          share = omega (arith, it.share);
        })
    | no nz ↦
        let take_it : (raw s == 0) ≡ false = ground arith in
        rw take_it (counted s h (tally raw total s) (tally-IsTally s (omega arith)))
  ]

  finished :
      IsNormalized params_12 (freq_normalize raw total) × ((s : ℕ) → 0 < freq_normalize raw total s)
  unfolding freq_normalize
  finished =
      let it = tally-IsTally 256 (omega arith) in
      let t = tally raw total 256 in
      let known : t.table_sum ≤ 4096 =
        omega (arith, within (t.table_sum - 256) (omega (arith, it.share, sums))) in
      let some_data : (total == 0) ≡ false = ground arith in
      let no_excess : ltb 4096 t.table_sum ≡ false = ground arith in
      elim (dec_lt t.table_sum 4096) [
        | yes less ↦
            let short : ltb t.table_sum 4096 ≡ true = ground arith in
            let entry = below-next t.out t.max_sym 256 it.max_is in
            let word : u16 (t.out t.max_sym + (4096 - t.table_sum))
                ≡ t.out t.max_sym + (4096 - t.table_sum) =
              omega (arith, entry, it.sum_is) in
            rw (some_data, short, word)
              (
                normalized (update t.out t.max_sym (t.out t.max_sym + (4096 - t.table_sum)))
                    (omega (
                      arith,
                      below-update t.out t.max_sym (t.out t.max_sym + (4096 - t.table_sum)) 256
                          it.max_is,
                      it.sum_is,
                    ))
                    (λ i hi. ground (arith, it.later i, it.max_is)),
                λ i. ground (arith, it.positive i),
              )
        | no full ↦
            let not_short : ltb t.table_sum 4096 ≡ false = ground arith in
            rw (some_data, not_short, no_excess)
              (normalized t.out (omega (arith, it.sum_is)) it.later, it.positive)
      ]

-- Counts that sum to the total, less than 2^52, are scaled to a frequency table that fills a 12-bit table
-- exactly and in which every byte has a positive frequency.
pub freq_normalize-IsNormalized :
    (raw : ℕ → ℕ) (total : ℕ)
    → below raw 256 ≡ total
    → total < 2 ^ 52
    → IsNormalized params_12 (freq_normalize raw total) × ((s : ℕ) → 0 < freq_normalize raw total s)
unfolding freq_normalize
freq_normalize-IsNormalized raw total sums fits = elim (ℕ_discrete total 0) [
  | yes z ↦
      let empty : (total == 0) ≡ true = ground arith in
      rw empty (record { words = λ s. omega arith; sums = sixteens }, λ s. omega arith)
  | no nz ↦ finished raw total (omega arith) sums fits
]
