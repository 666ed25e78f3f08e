-- ===== src/Normalize/Tests.antt =====
-- `freq_normalize` of src/core/netc_dict.c on small counts.
use netc.Prelude.{ℕ, ◌<◌, ◌≡◌, refl, arith, if◌then◌else◌, ◌==◌}
use netc.Tans.Params.{params_12}
use netc.Tans.Spread.{below}
use netc.Tans.Built.{IsNormalized}
use netc.Normalize.{freq_normalize}
use netc.Normalize.Sum.{freq_normalize-IsNormalized}

-- Ten bytes: seven of one kind and three of another.
abbrev counts : ℕ → ℕ
counts s = if s == 0x41 then 7 else if s == 0x42 then 3 else 0

counts_sum : below counts 256 ≡ 10
unfolding below
counts_sum = refl

freq_normalize-IsNormalized_example :
    IsNormalized params_12 (freq_normalize counts 10) × ((s : ℕ) → 0 < freq_normalize counts 10 s)
freq_normalize-IsNormalized_example = freq_normalize-IsNormalized counts 10 counts_sum (omega arith)
