-- ===== src/Adaptive/Rebuilt.antt =====
-- The tables that `netc_adaptive_tables_rebuild` of src/algo/netc_adaptive.c builds.
use netc.Prelude.{ℕ, zero, suc, ◌*◌, ◌^◌, ◌<◌, ◌≤◌, ◌≡◌, refl, sym, arith}
use netc.Prelude.{some, ltb}
use netc.Prelude.{true, false, ◌==◌}
use native.Mathlib.Nat.{mul-le-mul_right}
use netc.Tans.Params.{params_12}
use netc.Tans.Table.{Table, build_12, encode_entry}
use netc.Tans.Spread.{below, IsFreq}
use netc.Tans.Built.{IsNormalized, build-IsBuilt}
use netc.Tans.RoundTrip.{IsTable, IsCodable}
use netc.Normalize.{freq_normalize_adaptive}
use netc.Normalize.Sum.{freq_normalize-IsNormalized}
use netc.Adaptive.{Adapt, blended, sum_below, rebuilt_freq, rebuilt_table, tables_rebuild}

-- The widths of the counters of a bucket and of a table's frequencies.
pub record IsCounts (dict_freq bucket_freq : ℕ → ℕ) (bucket_total : ℕ) : Type 0 where
  pub freqs : (s : ℕ) → dict_freq s < 2 ^ 16
  pub counts : (s : ℕ) → bucket_freq s < 2 ^ 32
  pub total : bucket_total < 2 ^ 32

blended-lt : (d f : ℕ → ℕ) (t s : ℕ) → IsCounts d f t → blended d f t s < 2 ^ 43
unfolding blended
blended-lt d f t s it =
    let product : d s * t ≤ 65535 * t = mul-le-mul_right t (omega (arith, it.freqs s)) in
    ground (arith, it.freqs s, it.counts s, it.total, product)

sum_below-eq :
    (values : ℕ → ℕ) (n : ℕ)
    → n ≤ 256
    → ((s : ℕ) → values s < 2 ^ 43)
    → (sum_below values n ≡ below values n) × (below values n ≤ n * 2 ^ 43)
unfolding sum_below below
sum_below-eq values zero h hv = (refl, omega arith)
sum_below-eq values (suc n) h hv =
    let (e, most) = sum_below-eq values n (omega arith) hv in
    let v = hv n in (omega arith, omega arith)

le_self : 256 ≤ 256
le_self = omega arith

under : (x y : ℕ) → x ≡ y → y ≤ 256 * 2 ^ 43 → x < 2 ^ 52
under x y e h = omega arith

freq_lem :
    (d f : ℕ → ℕ) (t : ℕ)
    → IsCounts d f t
    → IsNormalized params_12 (rebuilt_freq d f t) × ((s : ℕ) → 0 < rebuilt_freq d f t s)
unfolding rebuilt_freq freq_normalize_adaptive
freq_lem d f t it =
    let counts = blended d f t in
    let sums = sum_below-eq counts 256 le_self (λ s. blended-lt d f t s it) in
    freq_normalize-IsNormalized counts (sum_below counts 256) (sym sums.0)
      (under (sum_below counts 256) (below counts 256) sums.0 sums.1)

entry_lem :
    (freq : ℕ → ℕ) (s : ℕ) → IsFreq freq → 0 < freq s → 0 < (encode_entry params_12 freq s).freq
unfolding encode_entry
entry_lem freq s words h =
    let some_freq : (freq s == 0) ≡ false = ground arith in rw some_freq (omega (arith, words s))

table_lem :
    (t : Table) (f : ℕ → ℕ) (total s : ℕ)
    → s < 256
    → IsCounts t.freq f total
    → IsTable params_12 (rebuilt_table t f total) × IsCodable (rebuilt_table t f total) s
unfolding rebuilt_table build_12
table_lem t f total s hs it =
    let (norm, positive) = freq_lem t.freq f total it in
    let freq = rebuilt_freq t.freq f total in
    let (t', built, is) = build-IsBuilt params_12 freq norm in
    let coded : 0 < (t'.encode s).freq =
      rw (is.encodes s) (entry_lem freq s norm.words (positive s)) in
    rw built ((freq, norm, built), (hs, coded))

-- For counters of their widths, the table that is built for a bucket is one that the builder accepts, and
-- every byte has a code in it, whatever the traffic was.
pub tables_rebuild-IsTable :
    (dict_tables : ℕ → Table) (a : Adapt) (b s : ℕ)
    → b < 16
    → s < 256
    → IsCounts (dict_tables b).freq (a.freq b) (a.total b)
    → let t = (tables_rebuild (some dict_tables) a).tables b in IsTable params_12 t × IsCodable t s
unfolding tables_rebuild
tables_rebuild-IsTable dict_tables a b s hb hs it =
    let inside : ltb b 16 ≡ true = ground arith in
    rw inside (table_lem (dict_tables b) (a.freq b) (a.total b) s hs it)
