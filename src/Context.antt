-- ===== src/Context.antt =====
-- The state of a connection: `netc_ctx_t` and `netc_dict_t` of src/core/netc_internal.h, with the operations of
-- src/core/netc_ctx.c and the bookkeeping after a packet in src/core/netc_compress.c and
-- src/core/netc_decompress.c. Allocations are taken to succeed. A null pointer is `none`; the bytes past
-- `prev_pkt_size` and `prev2_pkt_size`, which nothing reads, are left out.
use netc.Prelude.{ℕ, ◌+◌, ◌*◌, List, [], Bool, false, ◌&&◌, not, Option, none, some}
use netc.Prelude.{ltb, ◌!=◌, if◌then◌else◌, u32, bit_and, length, replicate}
use netc.Result.{Result, ok, err, unsupported}
use netc.Tans.Table.{Table, empty_decode, empty_encode}
use netc.Lzp.{LzpTable, adaptive_update as lzp_adaptive_update}
use netc.History.{Ring, ring_append}
use netc.Adaptive.{Adapt, adaptive_update}

-- `NETC_CFG_FLAG_*`.
abbrev pub cfg_stateful : ℕ
cfg_stateful = 0x01

abbrev pub cfg_delta : ℕ
cfg_delta = 0x04

abbrev pub cfg_bigram : ℕ
cfg_bigram = 0x08

abbrev pub cfg_stats : ℕ
cfg_stats = 0x10

abbrev pub cfg_compact_hdr : ℕ
cfg_compact_hdr = 0x20

abbrev pub cfg_fast_compress : ℕ
cfg_fast_compress = 0x100

abbrev pub cfg_adaptive : ℕ
cfg_adaptive = 0x200

-- `flags & flag`, as a test.
abbrev pub has : ℕ → ℕ → Bool
has flags flag = bit_and flags flag != 0

-- The parts of `netc_dict_t` that the coders read.
pub record Dict : Type 0 where
  pub model_id : ℕ
  pub tables : ℕ → Table
  pub bigram_tables : ℕ → ℕ → Table
  pub bigram_class_map : ℕ → ℕ
  pub lzp_table : Option LzpTable

-- `netc_cfg_t`.
pub record Cfg : Type 0 where
  pub flags : ℕ
  pub ring_buffer_size : ℕ
  pub compression_level : ℕ
  pub simd_level : ℕ
  pub arena_size : ℕ

-- `netc_stats_t`.
pub record Stats : Type 0 where
  pub packets_compressed : ℕ
  pub packets_decompressed : ℕ
  pub bytes_in : ℕ
  pub bytes_out : ℕ
  pub passthrough_count : ℕ

-- `netc_ctx_t`. The arena is scratch space of which only the size counts from one call to the next.
pub record Ctx : Type 0 where
  pub dict : Option Dict
  pub flags : ℕ
  pub compression_level : ℕ
  pub simd_level : ℕ
  pub ring : Ring
  pub prev_pkt : Option (List ℕ)
  pub prev2_pkt : Option (List ℕ)
  pub context_seq : ℕ
  pub arena_size : ℕ
  pub stats : Stats
  pub adapt : Option Adapt
  pub adapt_lzp : Option LzpTable

abbrev pub no_stats : Stats
no_stats = record {
  packets_compressed = 0;
  packets_decompressed = 0;
  bytes_in = 0;
  bytes_out = 0;
  passthrough_count = 0;
}

-- A table of zeros, as `calloc` leaves it.
abbrev pub zero_table : Table
zero_table = record {
  decode = λ _. empty_decode;
  encode_state = λ _. 0;
  encode = λ _. empty_encode;
  freq = λ _. 0;
  valid = false;
}

-- The copy of the dictionary's table, with the confidence of the trained slots set to 4.
unfoldable pub boosted : LzpTable → LzpTable
boosted t slot = if (t slot).valid != 0 then record (t slot) { valid = 4 } else t slot

abbrev pub boosted_table : Option LzpTable → Option LzpTable
boosted_table none = none
boosted_table (some t) = some (boosted t)

abbrev pub cloned_lzp : Option Dict → Option LzpTable
cloned_lzp none = none
cloned_lzp (some d) = boosted_table d.lzp_table

abbrev pub cloned_tables : Option Dict → ℕ → Table
cloned_tables none b = zero_table
cloned_tables (some d) b = d.tables b

abbrev pub fresh_adapt : (ℕ → Table) → Adapt
fresh_adapt tables = record { freq = λ _ _. 0; total = λ _. 0; tables = tables; pkt_count = 0 }

-- The context that `netc_ctx_create` sets up.
abbrev pub created : Option Dict → Cfg → Ctx
created dict cfg =
    let stateful = has cfg.flags cfg_stateful in
    let adaptive = has cfg.flags cfg_adaptive in
    let ring_size = (if ltb 0 cfg.ring_buffer_size then u32 cfg.ring_buffer_size else 65536) in
    record {
      dict = dict;
      flags = cfg.flags;
      compression_level = cfg.compression_level;
      simd_level = cfg.simd_level;
      ring = record { ring = if stateful then replicate ring_size 0 else []; ring_pos = 0 };
      prev_pkt = if stateful then some [] else none;
      prev2_pkt = if adaptive then some [] else none;
      context_seq = 0;
      arena_size = if ltb 0 cfg.arena_size then cfg.arena_size else 65535 * 2 + 64;
      stats = no_stats;
      adapt = if adaptive then some (fresh_adapt (cloned_tables dict)) else none;
      adapt_lzp = if adaptive then cloned_lzp dict else none;
    }

-- `netc_ctx_create`; `none` for a null pointer.
unfoldable pub ctx_create : Option Dict → Cfg → Option Ctx
ctx_create dict cfg =
    if has cfg.flags cfg_adaptive && not (has cfg.flags cfg_stateful)
    then none
    else some (created dict cfg)

abbrev pub emptied : Option (List ℕ) → Option (List ℕ)
emptied none = none
emptied (some bytes) = some []

-- The parts of `netc_ctx_reset` about the adaptive state.
abbrev pub reset_adapt : Option Dict → Option Adapt → Option Adapt
reset_adapt dict none = none
reset_adapt none (some a) = some (fresh_adapt a.tables)
reset_adapt (some d) (some a) = some (fresh_adapt d.tables)

abbrev pub or_kept : LzpTable → Option LzpTable → Option LzpTable
or_kept t none = some t
or_kept t (some dict_table) = some (boosted dict_table)

abbrev pub reset_lzp : Option Dict → Option Adapt → Option LzpTable → Option LzpTable
reset_lzp dict none lzp = lzp
reset_lzp dict (some a) none = none
reset_lzp none (some a) (some t) = some t
reset_lzp (some d) (some a) (some t) = or_kept t d.lzp_table

-- `netc_ctx_reset`.
unfoldable pub ctx_reset : Ctx → Ctx
ctx_reset ctx = record ctx {
  ring = record { ring = replicate (length ctx.ring.ring) 0; ring_pos = 0 };
  prev_pkt = emptied ctx.prev_pkt;
  prev2_pkt = emptied ctx.prev2_pkt;
  context_seq = 0;
  stats = no_stats;
  adapt = reset_adapt ctx.dict ctx.adapt;
  adapt_lzp = reset_lzp ctx.dict ctx.adapt ctx.adapt_lzp;
}

-- `netc_ctx_stats`.
unfoldable pub ctx_stats : Ctx → Result Stats
ctx_stats ctx = if has ctx.flags cfg_stats then ok ctx.stats else err unsupported

-- `netc_get_tables` and `netc_get_lzp_table`.
unfoldable pub get_tables : Ctx → Dict → ℕ → Table
get_tables ctx d = adapted ctx.adapt
  where
    adapted : Option Adapt → ℕ → Table
    adapted none = d.tables
    adapted (some a) = a.tables

unfoldable pub get_lzp_table : Ctx → Option LzpTable
get_lzp_table ctx = adapted ctx.adapt_lzp ctx.dict
  where
    adapted : Option LzpTable → Option Dict → Option LzpTable
    adapted (some t) dict = some t
    adapted none none = none
    adapted none (some d) = d.lzp_table

-- `prev_pkt_size`, and the bytes that it counts.
abbrev pub packet : Option (List ℕ) → List ℕ
packet none = []
packet (some bytes) = bytes

-- `compress_update_prev` and `decomp_update_prev`: without a buffer for the packet before, nothing is kept.
abbrev pub replaced : Option (List ℕ) → List ℕ → Option (List ℕ)
replaced none bytes = none
replaced (some prev) bytes = some bytes

abbrev pub rotated : Option (List ℕ) → Option (List ℕ) → Option (List ℕ)
rotated none prev2 = prev2
rotated (some prev) none = none
rotated (some prev) (some prev2) = some prev

unfoldable pub update_prev : Ctx → List ℕ → Ctx
update_prev ctx bytes = record ctx {
  prev_pkt = replaced ctx.prev_pkt bytes;
  prev2_pkt = rotated ctx.prev_pkt ctx.prev2_pkt;
}

abbrev pub dict_tables : Option Dict → Option (ℕ → Table)
dict_tables none = none
dict_tables (some d) = some d.tables

-- `netc_adaptive_update` and `netc_lzp_adaptive_update`, which null pointers skip.
abbrev pub learned : Option Dict → List ℕ → Option Adapt → Option Adapt
learned dict bytes none = none
learned dict bytes (some a) = some (adaptive_update (dict_tables dict) a bytes)

abbrev pub learned_lzp : List ℕ → Option LzpTable → Option LzpTable
learned_lzp bytes none = none
learned_lzp bytes (some t) = some (lzp_adaptive_update t bytes)

unfoldable pub learn : Ctx → List ℕ → Ctx
learn ctx bytes = record ctx {
  adapt = learned ctx.dict bytes ctx.adapt;
  adapt_lzp = learned_lzp bytes ctx.adapt_lzp;
}

-- The history, the packets before and the adaptive state after a packet of raw bytes.
unfoldable pub remember : Ctx → List ℕ → Ctx
unfolding update_prev learn
remember ctx bytes =
    let ctx' = update_prev (record ctx { ring = ring_append ctx.ring bytes }) bytes in
    learn ctx' bytes
