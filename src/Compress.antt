-- ===== src/Compress.antt =====
-- `netc_compress` and `netc_compress_stateless` of src/core/netc_compress.c. The pointers are not null; a destination is
-- its capacity. `none` of `netc_compress` is a run that C leaves undefined, and `none` of a path is one that does not
-- pay.
use netc.Prelude.{ℕ, zero, suc, ◌+◌, ◌-◌, ◌*◌, ◌^◌, min, List, [], ◌∷◌, ◌++◌, Bool, true, false}
use netc.Prelude.{◌&&◌, ◌||◌, not, Option, none, some}
use netc.Prelude.{ltb, leb, ◌==◌, ◌!=◌, if◌then◌else◌, u8, u16, u32, u64, bit_and, length, take}
use netc.Result.{Result, ok, err, toobig, buf_small}
use netc.Tans.Table.{Table}
use netc.Delta.{encode_order2, encode as delta_encode}
use netc.Lzp.{LzpTable, xor_filter}
use netc.Lz77.Encode.{lz77_encode}
use netc.Lz77x.{lz77x_encode}
use netc.Header.Types.{
  flag_delta, flag_bigram, flag_passthru, flag_dict_id, flag_mreg, flag_rle, flag_x2, flag_lz77,
  alg_tans, alg_lz77x, alg_tans_pctx, alg_lzp, alg_tans_10, alg_passthru,
}
use netc.Header.Wire.{PktHeader, hdr_emit}
use netc.Context.{
  Dict, Ctx, has, cfg_delta, cfg_stats, cfg_compact_hdr, packet, get_lzp_table, remember,
}
use netc.Decompress.{model_of}
pub mod Coded
pub mod Driver

-- A packet type that the driver has settled on: its flags, its algorithm, its payload, and whether it
-- counts as a passthrough.
pub record Choice : Type 0 where
  pub flags : ℕ
  pub algorithm : ℕ
  pub payload : List ℕ
  pub passthru : Bool

unfoldable pub count_compressed : Ctx → ℕ → ℕ → Bool → Ctx
count_compressed ctx src_size dst_size passthru =
    let s = ctx.stats in
    if has ctx.flags cfg_stats
    then record ctx {
      stats = record s {
        packets_compressed = u64 (s.packets_compressed + 1);
        bytes_in = u64 (s.bytes_in + src_size);
        bytes_out = u64 (s.bytes_out + dst_size);
        passthrough_count = if passthru then u64 (s.passthrough_count + 1) else s.passthrough_count;
      };
    }
    else ctx

-- The header of a packet, and the packet.
abbrev pub header : Option Dict → List ℕ → ℕ → Choice → PktHeader
header dict src seq c = record {
  original_size = u16 (length src);
  compressed_size = u16 (length c.payload);
  flags = c.flags;
  algorithm = c.algorithm;
  model_id = model_of dict;
  context_seq = seq;
}

unfoldable pub packet_bytes : Option Dict → List ℕ → ℕ → Choice → Bool → List ℕ
packet_bytes dict src seq c compact = hdr_emit (header dict src seq c) compact ++ c.payload

-- The end of every successful path but the last: the packet, and the context after it. The caller has
-- advanced `context_seq`, and `seq` is its old value.
unfoldable pub emit : Ctx → List ℕ → ℕ → Bool → Choice → Result (List ℕ) × Ctx
unfolding packet_bytes remember count_compressed
emit ctx src seq compact c =
    let out = packet_bytes ctx.dict src seq c compact in
    (ok out, count_compressed (remember ctx src) (length src) (length out) c.passthru)

-- `emit_passthrough` with the plain bytes.
abbrev pub plain_choice : List ℕ → Choice
plain_choice src = record {
  flags = flag_passthru + flag_dict_id;
  algorithm = alg_passthru;
  payload = src;
  passthru = true;
}

-- `lz77_failed` with `emit_passthrough`: the previous packets and the ring are updated before the capacity is
-- checked, the rest only after it. The header is written before that check too, so that in a buffer
-- without room for it the run is undefined, which is `none`.
unfoldable pub emit_plain : Ctx → List ℕ → ℕ → ℕ → Bool → Option (Result (List ℕ) × Ctx)
unfolding emit
emit_plain ctx src seq dst_cap compact =
    let out = packet_bytes ctx.dict src seq (plain_choice src) compact in
    let hdr = hdr_emit (header ctx.dict src seq (plain_choice src)) compact in
    let remembered = remember ctx src in
    if ltb dst_cap (length hdr)
    then none
    else if ltb dst_cap (length out)
    then some (err buf_small, record remembered { adapt = ctx.adapt; adapt_lzp = ctx.adapt_lzp })
    else some (emit ctx src seq compact (plain_choice src))

-- What the passes before the coders leave: the bytes to code, and `pkt_flags`, `did_delta` and `did_lzp`.
pub record Prepared : Type 0 where
  pub compress_src : List ℕ
  pub pkt_flags : ℕ
  pub did_delta : Bool
  pub did_lzp : Bool

abbrev pub raw : List ℕ → Prepared
raw src = record {
  compress_src = src;
  pkt_flags = flag_dict_id;
  did_delta = false;
  did_lzp = false;
}

-- The number of zero bytes.
unfoldable pub zeros : List ℕ → ℕ
zeros [] = 0
zeros (x ∷ xs) = if x == 0 then zeros xs + 1 else zeros xs

abbrev pub delta_prepared : ℕ → List ℕ → Prepared
delta_prepared flags residuals = record {
  compress_src = residuals;
  pkt_flags = flags;
  did_delta = true;
  did_lzp = false;
}

-- The delta pre-pass: residuals of the first order, or of the second where they have more zero bytes.
unfoldable pub residuals : List ℕ → Option (List ℕ) → List ℕ → Prepared
unfolding zeros
residuals prev none src = delta_prepared (flag_dict_id + flag_delta) (delta_encode prev src)
residuals prev (some prev2) src =
    let o1 = delta_encode prev src in
    let o2 = encode_order2 prev2 prev src in
    if length prev2 == length src && ltb (zeros o1) (zeros o2)
    then delta_prepared (flag_dict_id + flag_delta + flag_rle) o2
    else delta_prepared (flag_dict_id + flag_delta) o1

unfoldable pub delta_pass : Ctx → List ℕ → Prepared
unfolding residuals
delta_pass ctx src =
    let prev = packet ctx.prev_pkt in
    if has ctx.flags cfg_delta
      && length prev == length src
      && leb 8 (length src)
      && leb (length src) ctx.arena_size
    then residuals prev ctx.prev2_pkt src
    else raw src

-- `lz_len == (size_t)-1` where the stream is not smaller than the packet.
abbrev pub smaller_than : ℕ → Option (List ℕ) → Option (List ℕ)
smaller_than size none = none
smaller_than size (some out) = if ltb (length out) size then some out else none

abbrev pub lz77_choice : ℕ → List ℕ → Choice
lz77_choice pkt_flags out = record {
  flags = pkt_flags + flag_lz77 + flag_passthru;
  algorithm = alg_passthru;
  payload = out;
  passthru = true;
}

abbrev pub lz77x_choice : Bool → List ℕ → Choice
lz77x_choice passthru out = record {
  flags = flag_dict_id;
  algorithm = alg_lz77x;
  payload = out;
  passthru = passthru;
}

abbrev pub across_packets : Option (List ℕ) → Option Choice
across_packets none = none
across_packets (some out) = some (lz77x_choice true out)

abbrev pub within_packet : ℕ → Option (List ℕ) → Option Choice → Option Choice
within_packet pkt_flags none other = other
within_packet pkt_flags (some out) other = some (lz77_choice pkt_flags out)

-- The LZ77 path: within the packet, or else against the ring.
unfoldable pub lz77_path : Ctx → List ℕ → Prepared → ℕ → Option Choice
lz77_path ctx src p out_cap =
    let lz77_src = (if p.did_lzp then src else p.compress_src) in
    let prev_pkt_size = length (packet ctx.prev_pkt) in
    within_packet p.pkt_flags (smaller_than (length src) (lz77_encode lz77_src out_cap)) (
      if leb 64 (length src) && not (length ctx.ring.ring == 0) && ltb 0 prev_pkt_size
      then across_packets (
          smaller_than (length src)
            (lz77x_encode src ctx.ring.ring ctx.ring.ring_pos prev_pkt_size out_cap))
      else none)

-- The end of the call with a choice, or with the plain bytes where every coder failed.
unfoldable pub conclude :
    Ctx → List ℕ → ℕ → ℕ → Bool → Option Choice → Option (Result (List ℕ) × Ctx)
unfolding emit emit_plain
conclude ctx src seq dst_cap compact (some c) = some (emit ctx src seq compact c)
conclude ctx src seq dst_cap compact none = emit_plain ctx src seq dst_cap compact

-- From the guard on the arena to the end: the LZ77 path, and the plain bytes where it fails.
unfoldable pub compress_tail :
    Ctx → List ℕ → Prepared → ℕ → ℕ → ℕ → Bool → Option (Result (List ℕ) × Ctx)
unfolding lz77_path conclude
compress_tail ctx src p seq hdr_sz dst_cap compact = conclude ctx src seq dst_cap compact (
    if ltb 0 (length src) && ltb hdr_sz dst_cap
    then lz77_path ctx src p (dst_cap - hdr_sz)
    else none)
