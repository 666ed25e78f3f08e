-- ===== src/Decompress.antt =====
-- `netc_decompress` and `netc_decompress_stateless` of src/core/netc_decompress.c. The pointers are not null. `dst` is
-- what the caller's buffer holds, and its length is `dst_cap`; the result is the first `*dst_size` bytes.
use netc.Prelude.{ℕ, ◌+◌, ◌-◌, List, [], Bool, true, false, ◌&&◌, ◌||◌, not}
use netc.Prelude.{Option, none, some}
use netc.Prelude.{ltb, ◌==◌, ◌!=◌, if◌then◌else◌, u8, u64, bit_and, length, take, drop}
use netc.Result.{is_undefined, Result, ok, err, corrupt, dict_invalid, unsupported, version, ◌>>=◌}
use netc.Tans.Table.{Table}
use netc.Delta.{decode_order2, decode as delta_decode}
use netc.Lzp.{LzpTable, xor_unfilter}
use netc.Rle.{rle_decode}
use netc.Lz77.{lz77_decode}
use netc.Lz77x.{lz77x_decode}
use netc.Header.Types.{
  flag_delta, flag_passthru, flag_rle, flag_lz77, alg_tans, alg_lz77x, alg_tans_pctx, alg_lzp,
  alg_tans_10, alg_passthru,
}
use netc.Header.Wire.{PktHeader, validate_header}
use netc.Context.{
  Dict, Ctx, Stats, has, cfg_compact_hdr, cfg_stats, packet, get_tables, get_lzp_table, remember,
}
use netc.Payload.Decode.{decode_tans, decode_contexts, decode_tans_10}
pub mod Clean
pub mod Sizes
pub mod Stateless
pub mod Within
mod Tests

-- `NETC_ALG_RANS`.
abbrev pub alg_rans : ℕ
alg_rans = 0x02

-- `decomp_delta_postpass`, with `prev_pkt` and `prev2_pkt`: both flags select the second order.
abbrev pub undo_second : ℕ → List ℕ → Option (List ℕ) → List ℕ → List ℕ
undo_second flags prev none dst = delta_decode prev dst
undo_second flags prev (some prev2) dst =
    if has flags flag_rle && length prev2 == length dst
    then decode_order2 prev2 prev dst
    else delta_decode prev dst

abbrev pub undo_delta : ℕ → Option (List ℕ) → Option (List ℕ) → List ℕ → List ℕ
undo_delta flags none prev2 dst = dst
undo_delta flags (some prev) prev2 dst =
    if not (has flags flag_delta)
    then dst
    else if length prev != length dst
    then dst
    else undo_second flags prev prev2 dst

unfoldable pub delta_postpass : Ctx → ℕ → List ℕ → List ℕ
delta_postpass ctx flags dst = undo_delta flags ctx.prev_pkt ctx.prev2_pkt dst

-- The header as `netc_decompress` reads it before any field is set.
abbrev pub blank : PktHeader
blank = record {
  original_size = 0;
  compressed_size = 0;
  flags = 0;
  algorithm = 0;
  model_id = 0;
  context_seq = 0;
}

abbrev pub model_of : Option Dict → ℕ
model_of none = 0
model_of (some d) = d.model_id

-- `alg_id`, whose bucket is taken off.
unfoldable pub algorithm_of : ℕ → ℕ
algorithm_of algorithm =
    let low = bit_and algorithm 0x0f in
    if low == alg_tans || low == alg_lzp || low == alg_tans_pctx || low == alg_tans_10
    then low
    else algorithm

-- The case of `NETC_ALG_PASSTHRU`: an LZ77 stream, a run-length stream, or the bytes.
unfoldable pub decode_passthru : PktHeader → List ℕ → Result (List ℕ)
decode_passthru hdr payload =
    if has hdr.flags flag_lz77
    then lz77_decode payload hdr.original_size
    else if has hdr.flags flag_rle
    then rle_decode payload hdr.original_size
    else if hdr.compressed_size != hdr.original_size
    then err corrupt
    else ok (take hdr.original_size payload)

abbrev pub unfiltered : Option LzpTable → List ℕ → List ℕ
unfiltered none bytes = bytes
unfiltered (some t) bytes = xor_unfilter t bytes

-- The inverse of the filter, which the high half of the algorithm signals for this coder.
abbrev pub unfiltered_contexts : PktHeader → Option LzpTable → List ℕ → List ℕ
unfiltered_contexts hdr lzp bytes =
    if bit_and hdr.algorithm 0xf0 != 0 then unfiltered lzp bytes else bytes

abbrev pub with_lzp : Option LzpTable → (LzpTable → Result (List ℕ)) → Result (List ℕ)
with_lzp none run = err dict_invalid
with_lzp (some t) run = run t

-- The cases that need a dictionary, up to the delta: `payload` has `compressed_size` bytes.
unfoldable pub decode_coded :
    Dict → (ℕ → Table) → Option LzpTable → PktHeader → List ℕ → List ℕ → Bool → Result (List ℕ)
unfolding decode_tans decode_contexts decode_tans_10
decode_coded d tables lzp hdr payload dst compact =
    let alg = algorithm_of hdr.algorithm in
    let filtered = (λ (t : LzpTable).
      decode_tans d tables hdr payload dst compact >>= λ bytes. ok (xor_unfilter t bytes)) in
    if alg == alg_tans
    then decode_tans d tables hdr payload dst compact
    else if alg == alg_tans_pctx
    then (decode_contexts d tables hdr payload compact >>= λ bytes.
        ok (unfiltered_contexts hdr lzp bytes))
    else if alg == alg_lzp
    then with_lzp lzp filtered
    else decode_tans_10 d tables hdr payload

abbrev pub with_dict : Ctx → PktHeader → List ℕ → List ℕ → Bool → Option Dict → Result (List ℕ)
with_dict ctx hdr payload dst compact none = err dict_invalid
with_dict ctx hdr payload dst compact (some d) =
    decode_coded d (get_tables ctx d) (get_lzp_table ctx) hdr payload dst compact

-- The `switch` of `netc_decompress`, up to the delta.
unfoldable pub decode_payload : Ctx → PktHeader → List ℕ → List ℕ → Bool → Result (List ℕ)
unfolding decode_passthru decode_coded algorithm_of
decode_payload ctx hdr payload dst compact =
    let alg = algorithm_of hdr.algorithm in
    let coded = alg == alg_tans || alg == alg_tans_pctx || alg == alg_lzp || alg == alg_tans_10 in
    if alg == alg_passthru
    then decode_passthru hdr payload
    else if alg == alg_lz77x
    then (if length ctx.ring.ring == 0
        then err unsupported
        else lz77x_decode payload hdr.original_size ctx.ring.ring ctx.ring.ring_pos)
    else if coded
    then with_dict ctx hdr payload dst compact ctx.dict
    else if alg == alg_rans
    then err unsupported
    else err corrupt

-- The delta is undone except after plain bytes, runs and matches in the ring.
unfoldable pub restored : Ctx → PktHeader → List ℕ → List ℕ
unfolding delta_postpass algorithm_of
restored ctx hdr bytes =
    let alg = algorithm_of hdr.algorithm in
    if alg == alg_lz77x
    then bytes
    else if alg == alg_passthru && not (has hdr.flags flag_lz77)
    then bytes
    else delta_postpass ctx hdr.flags bytes

unfoldable pub count_decompressed : Ctx → ℕ → ℕ → Bool → Ctx
count_decompressed ctx src_size dst_size passthru =
    let s = ctx.stats in
    if has ctx.flags cfg_stats
    then record ctx {
      stats = record s {
        packets_decompressed = u64 (s.packets_decompressed + 1);
        bytes_in = u64 (s.bytes_in + src_size);
        bytes_out = u64 (s.bytes_out + dst_size);
        passthrough_count = if passthru then u64 (s.passthrough_count + 1) else s.passthrough_count;
      };
    }
    else ctx

-- The context after a packet that decoded to `bytes`.
unfoldable pub accept : Ctx → PktHeader → ℕ → List ℕ → Ctx
unfolding remember count_decompressed algorithm_of
accept ctx hdr src_size bytes =
    let passthru = algorithm_of hdr.algorithm == alg_passthru in
    let counted = count_decompressed (remember ctx bytes) src_size (length bytes) passthru in
    record counted { context_seq = u8 (hdr.context_seq + 1) }

-- The check of the model, which plain bytes and matches in the ring do without.
unfoldable pub wrong_model : Option Dict → PktHeader → Bool
wrong_model none hdr = false
wrong_model (some d) hdr =
    not (has hdr.flags flag_passthru) && hdr.algorithm != alg_lz77x && hdr.model_id != d.model_id

-- What the caller gets, and the context after it: an error leaves the context as it was. A run that C
-- leaves undefined, in which anything may happen, is `none`.
unfoldable pub finish : Ctx → PktHeader → ℕ → Result (List ℕ) → Option (Result (List ℕ) × Ctx)
unfolding restored accept
finish ctx hdr src_size (err e) = if is_undefined e then none else some (err e, ctx)
finish ctx hdr src_size (ok bytes) =
    some (ok (restored ctx hdr bytes), accept ctx hdr src_size (restored ctx hdr bytes))

-- After the header: the check of the model and the payload.
unfoldable pub decompress_packet :
    Ctx → PktHeader → ℕ → List ℕ → List ℕ → Bool → Option (Result (List ℕ) × Ctx)
unfolding decode_payload finish wrong_model
decompress_packet ctx hdr hdr_sz src dst compact =
    let payload = take hdr.compressed_size (drop hdr_sz src) in
    if wrong_model ctx.dict hdr
    then some (err version, ctx)
    else finish ctx hdr (length src) (decode_payload ctx hdr payload dst compact)

-- `netc_decompress` after the validation. A compact header has no model and no sequence number, which the
-- context fills in.
unfoldable pub after_header :
    Ctx → List ℕ → List ℕ → Bool → Result (PktHeader × ℕ) → Option (Result (List ℕ) × Ctx)
unfolding decompress_packet
after_header ctx src dst compact (err e) = some (err e, ctx)
after_header ctx src dst true (ok (hdr, hdr_sz)) =
    decompress_packet ctx
      (record hdr { model_id = model_of ctx.dict; context_seq = ctx.context_seq }) hdr_sz src dst
      true
after_header ctx src dst false (ok (hdr, hdr_sz)) = decompress_packet ctx hdr hdr_sz src dst false

-- `netc_decompress`: the bytes and the context after it, or `none` for an undefined run.
unfoldable pub decompress : Ctx → List ℕ → List ℕ → Option (Result (List ℕ) × Ctx)
unfolding after_header
decompress ctx src dst =
    let compact = has ctx.flags cfg_compact_hdr in
    after_header ctx src dst compact (validate_header src (length dst) blank compact)

-- The cases of `netc_decompress_stateless`, which has no history.
unfoldable pub decode_stateless : Dict → PktHeader → List ℕ → List ℕ → Result (List ℕ)
unfolding decode_passthru decode_coded algorithm_of
decode_stateless d hdr payload dst =
    let alg = algorithm_of hdr.algorithm in
    let coded = alg == alg_tans || alg == alg_tans_pctx || alg == alg_lzp || alg == alg_tans_10 in
    if alg == alg_passthru
    then decode_passthru hdr payload
    else if coded
    then decode_coded d d.tables d.lzp_table hdr payload dst false
    else if alg == alg_rans
    then err unsupported
    else err corrupt

-- After the validation.
abbrev pub stateless_packet : Dict → List ℕ → List ℕ → PktHeader × ℕ → Result (List ℕ)
stateless_packet d src dst (hdr, hdr_sz) =
    if not (has hdr.flags flag_passthru) && hdr.model_id != d.model_id
    then err version
    else if has hdr.flags flag_delta
    then err corrupt
    else decode_stateless d hdr (take hdr.compressed_size (drop hdr_sz src)) dst

-- `netc_decompress_stateless`, with a dictionary that is not null.
unfoldable pub decompress_stateless : Dict → List ℕ → List ℕ → Result (List ℕ)
unfolding decode_stateless
decompress_stateless d src dst =
    validate_header src (length dst) blank false >>= stateless_packet d src dst
