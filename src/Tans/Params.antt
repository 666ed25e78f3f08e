-- ===== src/Tans/Params.antt =====
-- The two sizes of the codec in src/algo/netc_tans.h: 12-bit tables, and 10-bit tables for small packets.
use netc.Prelude.{ℕ, ◌+◌, ◌*◌, ◌%◌, ◌^◌, ◌≤◌, ◌<◌, ◌≡◌, arith, ◌>>>◌}

-- What `NETC_TANS_TABLE_LOG` and `NETC_TANS_SPREAD_STEP` have to be for the codec to work.
pub record Params : Type 0 where
  pub table_log : ℕ
  pub spread_step : ℕ
  pub small : table_log ≤ 14
  pub visits_once :
      (m n : ℕ)
      → m < 2 ^ table_log
      → n < 2 ^ table_log
      → m * spread_step % 2 ^ table_log ≡ n * spread_step % 2 ^ table_log
      → m ≡ n

abbrev pub table_size : Params → ℕ
table_size p = 2 ^ p.table_log

abbrev pub symbols : ℕ
symbols = 256

pub visits_once_12 :
    (m n : ℕ) → m < 2 ^ 12 → n < 2 ^ 12 → m * 2563 % 2 ^ 12 ≡ n * 2563 % 2 ^ 12 → m ≡ n
visits_once_12 m n hm hn e = omega arith

pub visits_once_10 :
    (m n : ℕ) → m < 2 ^ 10 → n < 2 ^ 10 → m * 643 % 2 ^ 10 ≡ n * 643 % 2 ^ 10 → m ≡ n
visits_once_10 m n hm hn e = omega arith

pub small_12 : 12 ≤ 14
small_12 = omega arith

pub small_10 : 10 ≤ 14
small_10 = omega arith

-- `NETC_TANS_TABLE_LOG`, and a step of `(SIZE >> 1) + (SIZE >> 3) + 3`.
abbrev pub params_12 : Params
params_12 = record {
  table_log = 12;
  spread_step = 4096 >>> 1 + 4096 >>> 3 + 3;
  small = small_12;
  visits_once = visits_once_12;
}

-- `NETC_TANS_TABLE_LOG_10` and `NETC_TANS_SPREAD_STEP_10`.
abbrev pub params_10 : Params
params_10 = record {
  table_log = 10;
  spread_step = 643;
  small = small_10;
  visits_once = visits_once_10;
}
