-- ===== src/Payload/Encode.antt =====
-- The payloads that the `try_tans_*` functions of src/core/netc_compress.c write. A buffer of a size is a capacity;
-- `failed` is the return value -1, and `undefined` a run that C leaves undefined.
use netc.Prelude.{ℕ, zero, suc, ◌+◌, ◌-◌, ◌*◌, ◌^◌, min, List, [], ◌∷◌, ◌++◌, Bool, true, false}
use netc.Prelude.{◌&&◌, not, some, ltb, leb, ◌==◌, if◌then◌else◌}
use netc.Prelude.{u8, ◌>>>◌, length}
use netc.Bitstream.Writer.{Writer}
use netc.Bitstream.Writer
use netc.Bitstream.Reader.{Outcome, done, failed, undefined, ◌>>=◌}
use netc.Tans.Table.{Table}
use netc.Tans.Buckets.{ctx_bucket, bigram_class}
use netc.Tans.Codec.{
  bigram_ctx_count, from_option, encode, encode_10, encode_pctx, encode_pctx_bigram,
}
use netc.Tans.Dual.{encode_x2}
use netc.Header.Wire.{write_u16_le}
use netc.Context.{Dict, has, cfg_bigram}

-- `NETC_INTERNAL_NO_X2` and `NETC_INTERNAL_SKIP_SR`.
abbrev pub no_x2 : ℕ
no_x2 = 2 ^ 31

abbrev pub skip_sr : ℕ
skip_sr = 2 ^ 30

-- `netc_write_u32_le`.
abbrev pub write_u32_le : ℕ → List ℕ
write_u32_le v = u8 v ∷ u8 (v >>> 8) ∷ u8 (v >>> 16) ∷ u8 (v >>> 24) ∷ []

-- The coder's state in front of the stream.
abbrev pub state_size : Bool → ℕ
state_size compact = if compact then 2 else 4

abbrev pub write_state : Bool → ℕ → List ℕ
write_state compact state = if compact then write_u16_le state else write_u32_le state

unfoldable pub select_tans_table : Dict → (ℕ → Table) → ℕ → ℕ → Bool → Table
select_tans_table dict tables bucket prev_byte bigram =
    let t = dict.bigram_tables bucket (bigram_class prev_byte (some dict.bigram_class_map)) in
    if bigram then (if t.valid then t else tables bucket) else tables bucket

-- The class of the byte before is none of the bigram tables: `select_tans_table` then reads outside them.
abbrev pub no_class : Dict → ℕ → Bool → Bool
no_class dict prev_byte bigram =
    bigram && leb bigram_ctx_count (bigram_class prev_byte (some dict.bigram_class_map))

-- A coder that returned a state, and the bytes of its stream after the flush.
unfoldable pub flushed : Outcome (ℕ × Writer) → Outcome (ℕ × List ℕ)
flushed coded = do (state, w) ← coded; w' ← from_option (Writer.flush w); done (state, w'.out)

unfoldable pub flushed_x2 : Outcome (ℕ × ℕ × Writer) → Outcome (ℕ × ℕ × List ℕ)
flushed_x2 coded = do
  (state0, state1, w) ← coded
  w' ← from_option (Writer.flush w)
  done (state0, state1, w'.out)

-- The single-state stream of `try_tans_single_with_table`.
unfoldable pub single_state : Table → List ℕ → ℕ → Bool → Outcome (List ℕ × Bool)
unfolding flushed
single_state tbl src cap compact =
    let sz = state_size compact in
    if ltb cap sz then failed else (do
      (state, bits) ← flushed (encode tbl src (Writer.init (cap - sz)) 4096)
      done (write_state compact state ++ bits, false))

unfoldable pub dual_state : Table → List ℕ → ℕ → Bool → Outcome (List ℕ × Bool)
unfolding flushed_x2
dual_state tbl src cap compact = do
  (state0, state1, bits) ←
      flushed_x2 (encode_x2 tbl src (Writer.init (cap - 2 * state_size compact)))
  done (write_state compact state0 ++ (write_state compact state1 ++ bits), true)

abbrev or_else : {A : Type 0} → Outcome A → Outcome A → Outcome A
or_else failed other = other
or_else (done a) other = done a
or_else undefined other = undefined

-- `try_tans_single_with_table`: the payload, and whether it has two states.
unfoldable pub try_tans_single_with_table : Table → List ℕ → ℕ → ℕ → Bool → Outcome (List ℕ × Bool)
unfolding single_state dual_state
try_tans_single_with_table tbl src cap ctx_flags compact =
    let two =
      not (has ctx_flags cfg_bigram)
      && not (has ctx_flags no_x2)
      && leb 256 (length src)
      && leb (2 * state_size compact) cap in
    if not tbl.valid
    then failed
    else or_else (if two then dual_state tbl src cap compact else failed)
        (single_state tbl src cap compact)

-- `try_tans_10bit_with_table`, whose state always has two bytes.
unfoldable pub try_tans_10bit_with_table : Table → List ℕ → ℕ → Outcome (List ℕ)
unfolding flushed
try_tans_10bit_with_table tbl src cap =
    if not tbl.valid then failed else if ltb cap 2 then failed else (do
      (state, bits) ← flushed (encode_10 tbl src (Writer.init (cap - 2)) 1024)
      done (write_u16_le state ++ bits))

-- `used_mreg_flag`, of which 1, the old multi-region format, is never returned.
pub data Mode : Type 0 where
  single pctx pctx_bigram : Mode

-- What `try_tans_compress` returns through its pointers.
pub record Payload : Type 0 where
  pub bytes : List ℕ
  pub mode : Mode
  pub x2 : Bool
  pub table_idx : ℕ

-- The best bucket of the scan from `b` on, with its size; `failed` when there is none.
unfoldable pub best_bucket :
    (ℕ → Table) → List ℕ → ℕ → Bool → ℕ → ℕ → Outcome (ℕ × ℕ) → Outcome (ℕ × ℕ)
unfolding try_tans_single_with_table
best_bucket tables src ctx_flags compact zero b best = best
best_bucket tables src ctx_flags compact (suc left) b best =
    best_bucket tables src ctx_flags compact left (b + 1)
      (smaller best (try_tans_single_with_table (tables b) src 520 ctx_flags compact))
  where
    smaller : Outcome (ℕ × ℕ) → Outcome (List ℕ × Bool) → Outcome (ℕ × ℕ)
    smaller best undefined = undefined
    smaller best failed = best
    smaller undefined (done (bytes, x2)) = undefined
    smaller failed (done (bytes, x2)) = done (b, length bytes)
    smaller (done (best_b, size)) (done (bytes, x2)) =
        if ltb (length bytes) size then done (b, length bytes) else done (best_b, size)

abbrev one_region : ℕ → List ℕ × Bool → Payload
one_region bucket (bytes, x2) = record { bytes = bytes; mode = single; x2 = x2; table_idx = bucket }

-- `try_tans_single_region`: the first bucket is that of offset 0.
unfoldable pub try_tans_single_region : Dict → (ℕ → Table) → List ℕ → ℕ → ℕ → Bool → Outcome Payload
unfolding try_tans_single_with_table best_bucket select_tans_table
try_tans_single_region dict tables src cap ctx_flags compact =
    let last_bucket = ctx_bucket (length src - 1) in
    let bigram = has ctx_flags cfg_bigram in
    let scan = not bigram && leb (length src) 512 && ltb 0 last_bucket in
    let scanned = (do
      (bucket, size) ← best_bucket tables src ctx_flags compact (last_bucket + 1) 0 failed
      coded ← try_tans_single_with_table (tables bucket) src cap ctx_flags compact
      done (one_region bucket coded)) in
    let plain = (do
      coded ←
          try_tans_single_with_table (select_tans_table dict tables 0 0 bigram) src cap ctx_flags
            compact
      done (one_region 0 coded)) in
    if scan then scanned else if no_class dict 0 bigram then undefined else plain

-- Every table of the packet's buckets is valid.
abbrev all_valid : (ℕ → Table) → ℕ → Bool
all_valid tables zero = true
all_valid tables (suc b) = all_valid tables b && (tables b).valid

-- The stream with a table for each bucket, or that with one for each bucket and class when it is smaller.
unfoldable pub per_context : Dict → (ℕ → Table) → List ℕ → ℕ → Bool → Outcome (ℕ × List ℕ × Mode)
unfolding flushed
per_context dict tables src room bigram = do
  (state, bits) ← flushed (encode_pctx tables src (Writer.init room) 4096)
  (if bigram && (dict.bigram_tables 0 0).valid
      then smaller state bits (
          flushed (
            encode_pctx_bigram dict.bigram_tables tables (some dict.bigram_class_map) src
              (Writer.init (min room (65535 + 64))) 4096))
      else done (state, bits, pctx))
  where
    smaller : ℕ → List ℕ → Outcome (ℕ × List ℕ) → Outcome (ℕ × List ℕ × Mode)
    smaller state bits undefined = undefined
    smaller state bits failed = done (state, bits, pctx)
    smaller state bits (done (bg_state, bg_bits)) =
        if ltb (length bg_bits) (length bits)
        then done (bg_state, bg_bits, pctx_bigram)
        else done (state, bits, pctx)

-- The single region where it is smaller than the per-context payload.
abbrev smaller_region : Outcome Payload → Payload → Outcome Payload
smaller_region undefined p = undefined
smaller_region failed p = done p
smaller_region (done sr) p = if ltb (length sr.bytes) (length p.bytes) then done sr else done p

-- `try_tans_compress`.
unfoldable pub try_tans_compress : Dict → (ℕ → Table) → List ℕ → ℕ → ℕ → Bool → Outcome Payload
unfolding try_tans_single_region per_context
try_tans_compress dict tables src cap ctx_flags compact =
    let last_bucket = ctx_bucket (length src - 1) in
    let sz = state_size compact in
    let skips = has ctx_flags skip_sr in
    let region = try_tans_single_region dict tables src cap ctx_flags compact in
    let trial =
      (if leb (length src) 512 && not skips
        then try_tans_single_region dict tables src 520 ctx_flags compact
        else failed) in
    let fallback = (if skips then failed else region) in
    if length src == 0
    then failed
    else if last_bucket == 0
    then region
    else if not (all_valid tables (last_bucket + 1))
    then failed
    else if ltb cap sz
    then fallback
    else chosen trial fallback (per_context dict tables src (cap - sz) (has ctx_flags cfg_bigram))
  where
    chosen : Outcome Payload → Outcome Payload → Outcome (ℕ × List ℕ × Mode) → Outcome Payload
    chosen trial fallback undefined = undefined
    chosen trial fallback failed = fallback
    chosen trial fallback (done (state, bits, mode)) = smaller_region trial (record {
      bytes = write_state compact state ++ bits;
      mode = mode;
      x2 = false;
      table_idx = 0;
    })
