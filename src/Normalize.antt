-- ===== src/Normalize.antt =====
-- Counts scaled to the frequencies of a 12-bit table: `freq_normalize` of src/core/netc_dict.c and its copy
-- `freq_normalize_adaptive` in src/algo/netc_adaptive.c.
use netc.Prelude.{
  ℕ, zero, suc, ◌+◌, ◌-◌, ◌*◌, ◌/◌, ◌^◌, min, ltb, ◌==◌, if◌then◌else◌, u16, u32, u64,
}
use netc.Tans.Table.{update}
pub mod Sum
mod Tests

-- `out`, `table_sum`, `max_sym` and `max_val` of the loop over the symbols.
pub record Tally : Type 0 where
  pub out : ℕ → ℕ
  pub table_sum : ℕ
  pub max_sym : ℕ
  pub max_val : ℕ

module _ (raw : ℕ → ℕ) (total : ℕ) where
  unfoldable pub bonus : ℕ → ℕ
  bonus s = min (u64 (raw s * 3840) / total) 0xfffe

  -- After the rounds for the symbols below the argument.
  unfoldable pub tally : ℕ → Tally
  unfolding bonus
  tally zero = record { out = λ _. 1; table_sum = 256; max_sym = 0; max_val = 1 }
  tally (suc s) =
      let t = tally s in
      let value = u16 (1 + u32 (bonus s)) in
      if raw s == 0 then t else record {
        out = update t.out s value;
        table_sum = u32 (t.table_sum + u32 (bonus s));
        max_sym = if ltb t.max_val value then s else t.max_sym;
        max_val = if ltb t.max_val value then value else t.max_val;
      }

  -- `for (s = 0; s < 256 && excess > 0; s++)`, after the rounds below the argument.
  unfoldable pub spread_excess : (ℕ → ℕ) → ℕ → ℕ → (ℕ → ℕ) × ℕ
  spread_excess out excess zero = (out, excess)
  spread_excess out excess (suc s) =
      let (out', left) = spread_excess out excess s in
      if ltb 0 left
      then (if ltb 1 (out' s) then (update out' s (out' s - 1), left - 1) else (out', left))
      else (out', left)

  unfoldable pub freq_normalize : ℕ → ℕ
  freq_normalize =
      let t = tally 256 in
      let excess = t.table_sum - 4096 in
      if total == 0
      then (λ _. 16)
      else if ltb t.table_sum 4096
      then update t.out t.max_sym (u16 (t.out t.max_sym + (4096 - t.table_sum)))
      else if ltb 4096 t.table_sum
      then (if ltb (u16 excess + 1) (t.out t.max_sym)
          then update t.out t.max_sym (u16 (t.out t.max_sym - u16 excess))
          else (spread_excess t.out excess 256).0)
      else t.out

-- The copy has the same body.
unfoldable pub freq_normalize_adaptive : (ℕ → ℕ) → ℕ → ℕ → ℕ
unfolding freq_normalize
freq_normalize_adaptive blended total = freq_normalize blended total
