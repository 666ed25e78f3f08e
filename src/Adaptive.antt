-- ===== src/Adaptive.antt =====
-- The tables that follow the traffic: `netc_adaptive_update` of src/algo/netc_adaptive.h and
-- `netc_adaptive_tables_rebuild` of src/algo/netc_adaptive.c.
use netc.Prelude.{ℕ, zero, suc, ◌+◌, ◌*◌, ◌/◌, List, [], ◌∷◌, Bool, ◌&&◌, Option, none, some}
use netc.Prelude.{ltb, leb, ◌==◌, if◌then◌else◌, u32, u64}
use netc.Tans.Table.{Table, update, build_12}
use netc.Tans.Buckets.{ctx_bucket}
use netc.Normalize.{freq_normalize_adaptive}
pub mod Rebuilt
mod Tests

-- `adapt_freq`, by bucket and byte, `adapt_total`, `adapt_tables` and `adapt_pkt_count` of a context.
pub record Adapt : Type 0 where
  pub freq : ℕ → ℕ → ℕ
  pub total : ℕ → ℕ
  pub tables : ℕ → Table
  pub pkt_count : ℕ

-- The loop over the bytes of a packet, from offset `i` on.
unfoldable pub accumulate : Adapt → ℕ → List ℕ → Adapt
accumulate a i [] = a
accumulate a i (byte ∷ bytes) =
    let b = ctx_bucket (u32 i) in
    let counted = (λ (c s : ℕ). if b == c && byte == s then u32 (a.freq c s + 1) else a.freq c s) in
    accumulate (record a { freq = counted; total = update a.total b (u32 (a.total b + 1)) }) (i + 1)
      bytes

-- `blended[s]` of a bucket, from the frequency in the dictionary's table.
unfoldable pub blended : (ℕ → ℕ) → (ℕ → ℕ) → ℕ → ℕ → ℕ
blended dict_freq bucket_freq bucket_total s =
    if ltb 0 bucket_total
    then u64 (u64 (bucket_freq s * 3) + u64 (dict_freq s * bucket_total) / 4096 * 1)
    else dict_freq s

-- `blended_total` after the rounds for the symbols below the argument.
unfoldable pub sum_below : (ℕ → ℕ) → ℕ → ℕ
sum_below values zero = 0
sum_below values (suc s) = u64 (sum_below values s + values s)

-- The new frequencies of a bucket, and its table, or that of the dictionary where the builder fails.
unfoldable pub rebuilt_freq : (ℕ → ℕ) → (ℕ → ℕ) → ℕ → ℕ → ℕ
unfolding blended sum_below
rebuilt_freq dict_freq bucket_freq bucket_total =
    let counts = blended dict_freq bucket_freq bucket_total in
    freq_normalize_adaptive counts (sum_below counts 256)

unfoldable pub rebuilt_table : Table → (ℕ → ℕ) → ℕ → Table
rebuilt_table dict_table bucket_freq bucket_total =
    or_dict (build_12 (rebuilt_freq dict_table.freq bucket_freq bucket_total))
  where
    or_dict : Option Table → Table
    or_dict none = dict_table
    or_dict (some t) = t

-- `none` is a context with no dictionary.
unfoldable pub tables_rebuild : Option (ℕ → Table) → Adapt → Adapt
unfolding rebuilt_table
tables_rebuild none a = a
tables_rebuild (some dict_tables) a = record a {
  tables = λ (b : ℕ).
      if ltb b 16 then rebuilt_table (dict_tables b) (a.freq b) (a.total b) else a.tables b;
}

unfoldable pub adaptive_update : Option (ℕ → Table) → Adapt → List ℕ → Adapt
unfolding accumulate tables_rebuild
adaptive_update dict_tables a bytes =
    let counted = accumulate a 0 bytes in
    let count = u32 (a.pkt_count + 1) in
    let rebuilt = tables_rebuild dict_tables (record counted { pkt_count = count }) in
    if leb 128 count then record rebuilt { pkt_count = 0 } else record counted { pkt_count = count }
