-- ===== src/Tans/Rescale.antt =====
-- `netc_freq_rescale_12_to_10` of src/algo/netc_tans.c: the frequencies of a 12-bit table for a 10-bit one.
use netc.Prelude.{ℕ, zero, suc, ◌+◌, ◌-◌, ◌*◌, ◌/◌, ◌||◌, Option, none, some}
use netc.Prelude.{ltb, leb, ◌==◌, ◌!=◌, if◌then◌else◌, u16, u32}
use netc.Tans.Table.{total, update}

-- `freq10`, `total10`, `largest_sym` and `largest_freq12` of the first pass.
pub record Scaled : Type 0 where
  pub freq10 : ℕ → ℕ
  pub total10 : ℕ
  pub largest_sym : Option ℕ
  pub largest_freq12 : ℕ

module _ (freq12 : ℕ → ℕ) where
  unfoldable pub scaled : ℕ → ℕ
  scaled s = let value = u32 ((freq12 s * 1024 + 2048) / 4096) in if value == 0 then 1 else value

  -- After the rounds for the symbols below the argument.
  unfoldable pub scale : ℕ → Scaled
  unfolding scaled
  scale zero = record { freq10 = λ _. 0; total10 = 0; largest_sym = none; largest_freq12 = 0 }
  scale (suc s) =
      let t = scale s in
      let larger = ltb t.largest_freq12 (freq12 s) in
      if freq12 s == 0 then t else record {
        freq10 = update t.freq10 s (u16 (scaled s));
        total10 = u32 (t.total10 + scaled s);
        largest_sym = if larger then some s else t.largest_sym;
        largest_freq12 = if larger then freq12 s else t.largest_freq12;
      }

-- The loop that moves the frequencies of the other symbols by one until the sum is right, after the rounds
-- below the argument. Of `diff`, `short` is the positive part and `over` the negative one.
unfoldable pub redistribute : (ℕ → ℕ) → ℕ → ℕ → ℕ → ℕ → (ℕ → ℕ) × ℕ × ℕ
redistribute freq10 largest_sym short over zero = (freq10, short, over)
redistribute freq10 largest_sym short over (suc s) =
    let (out, up, down) = redistribute freq10 largest_sym short over s in
    if s == largest_sym || out s == 0
    then (out, up, down)
    else if ltb 0 up
    then (update out s (u16 (out s + 1)), up - 1, down)
    else if ltb 0 down
    then (if ltb 1 (out s) then (update out s (out s - 1), up, down - 1) else (out, up, down))
    else (out, up, down)

-- The second pass, when the largest symbol is known.
unfoldable pub adjust : Scaled → ℕ → ℕ → ℕ
unfolding redistribute
adjust t largest_sym =
    let one = update t.freq10 largest_sym 1 in
    let sum = total one 256 in
    if leb (t.freq10 largest_sym + 1024) t.total10
    then (redistribute one largest_sym (1024 - sum) (sum - 1024) 256).0
    else update t.freq10 largest_sym (u16 (t.freq10 largest_sym + 1024 - t.total10))

-- `none` is the return value -1.
unfoldable pub freq_rescale_12_to_10 : (ℕ → ℕ) → Option (ℕ → ℕ)
freq_rescale_12_to_10 freq12 =
    if total freq12 256 != 4096 then none else adjusted (scale freq12 256).largest_sym
  where
    adjusted : Option ℕ → Option (ℕ → ℕ)
    adjusted none = none
    adjusted (some largest_sym) = some (adjust (scale freq12 256) largest_sym)
