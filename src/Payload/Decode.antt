-- ===== src/Payload/Decode.antt =====
-- `decode_tans` of src/core/netc_decompress.c, and the payloads of the other entropy coders of
-- `netc_decompress` and `netc_decompress_stateless`. `dst` is what the buffer holds, of which the first
-- `original_size` bytes are the output.
use netc.Prelude.{ℕ, zero, suc, ◌+◌, ◌-◌, ◌*◌, List, Bool}
use netc.Prelude.{◌&&◌, ◌||◌, not, Option, none, some, ltb, leb, ◌==◌, if◌then◌else◌}
use netc.Prelude.{◌>>>◌, length, get_or, take, drop}
use netc.Result.{Result, ok, err, corrupt, dict_invalid, undefined_behaviour, ◌>>=◌}
use netc.Bitstream.Reader.{Outcome, done, failed, undefined}
use netc.Bitstream.Reader
use netc.Tans.Params.{params_12, params_10}
use netc.Tans.Table.{Table, build_10}
use netc.Tans.Rescale.{freq_rescale_12_to_10}
use netc.Tans.Buckets.{bucket_start_offset}
use netc.Tans.Codec.{decode, decode_10, decode_pctx, decode_pctx_bigram, bad_state}
use netc.Tans.Dual.{decode_x2}
use netc.History.{splice}
use netc.Header.Types.{flag_bigram, flag_mreg, flag_x2}
use netc.Header.Wire.{PktHeader, read_u16_le}
use netc.Context.{Dict, has}
use netc.Payload.Encode.{no_class, select_tans_table, state_size}

-- `netc_read_u32_le`.
abbrev pub read_u32_le : List ℕ → ℕ → ℕ
read_u32_le b at = read_u16_le b at + read_u16_le b (at + 2) * 65536

abbrev pub read_state : Bool → List ℕ → ℕ → ℕ
read_state compact b at = if compact then read_u16_le b at else read_u32_le b at

-- The result of a coder, whose return value -1 is reported as a corrupt packet.
abbrev pub decoded : {A : Type 0} → Outcome A → Result A
decoded (done a) = ok a
decoded failed = err corrupt
decoded undefined = err undefined_behaviour

-- `decomp_select_tbl`.
abbrev pub decomp_select_tbl : Dict → (ℕ → Table) → ℕ → ℕ → ℕ → Table
decomp_select_tbl dict tables bucket prev_byte pkt_flags =
    select_tans_table dict tables bucket prev_byte (has pkt_flags flag_bigram)

-- `hdr->algorithm >> 4`, with its clamp.
abbrev pub bucket_of : PktHeader → ℕ
bucket_of hdr = let bucket = hdr.algorithm >>> 4 in if leb 16 bucket then 0 else bucket

-- What the loop over the regions changes: the output, `bits_offset` and `region_prev_byte`.
pub record Regions : Type 0 where
  pub dst : List ℕ
  pub bits_offset : ℕ
  pub region_prev_byte : ℕ

-- The table of 10 bits that is built from one of 12, and the decoding with it.
abbrev pub table_10 : Option (ℕ → ℕ) → Option Table
table_10 none = none
table_10 (some freq10) = build_10 freq10

abbrev pub tans_10_with : PktHeader → List ℕ → Option Table → Result (List ℕ)
tans_10_with hdr payload none = err dict_invalid
tans_10_with hdr payload (some tbl10) =
    decoded
      (decode_10 tbl10 (Reader.init (drop 2 payload)) hdr.original_size (read_u16_le payload 0))

module _ (dict : Dict) (tables : ℕ → Table) (hdr : PktHeader) (payload : List ℕ) where
  -- The body of the loop for region `r`.
  unfoldable pub region : List ℕ → ℕ → Regions → Result Regions
  region bits_base r s =
      let orig = hdr.original_size in
      let state = read_u32_le payload (1 + r * 8) in
      let bs_bytes = read_u32_le payload (1 + r * 8 + 4) in
      let rstart = bucket_start_offset r in
      let rend_bound = bucket_start_offset (r + 1) in
      let region_start = (if ltb rstart orig then rstart else orig) in
      let region_end = (if ltb rend_bound orig then rend_bound else orig) in
      let region_len = region_end - region_start in
      let tbl = decomp_select_tbl dict tables r s.region_prev_byte hdr.flags in
      let stream = take bs_bytes (drop s.bits_offset bits_base) in
      if (state == 0 && bs_bytes == 0) || region_len == 0
      then ok s
      else if bad_state params_12 state
      then err corrupt
      else if ltb (length bits_base) (s.bits_offset + bs_bytes)
      then err corrupt
      else if no_class dict s.region_prev_byte (has hdr.flags flag_bigram)
      then err undefined_behaviour
      else if not tbl.valid
      then err dict_invalid
      else (decoded (decode tbl (Reader.init stream) region_len state) >>= λ bytes. ok (record {
        dst = splice region_start bytes s.dst;
        bits_offset = s.bits_offset + bs_bytes;
        region_prev_byte = get_or (splice region_start bytes s.dst) (region_end - 1) 0;
      }))

  unfoldable pub regions : List ℕ → ℕ → ℕ → Regions → Result Regions
  unfolding region
  regions bits_base zero r s = ok s
  regions bits_base (suc left) r s =
      region bits_base r s >>= λ s'. regions bits_base left (r + 1) s'

  unfoldable pub decode_mreg : List ℕ → Result (List ℕ)
  unfolding regions
  decode_mreg dst =
      let n_regions = get_or payload 0 0 in
      let hdr_bytes = 1 + n_regions * 8 in
      let start : Regions = record {
        dst = take hdr.original_size dst;
        bits_offset = 0;
        region_prev_byte = 0;
      } in
      if ltb (length payload) 1
      then err corrupt
      else if n_regions == 0 || ltb 16 n_regions
      then err corrupt
      else if ltb (length payload) hdr_bytes
      then err corrupt
      else (regions (drop hdr_bytes payload) n_regions 0 start >>= λ s. ok s.dst)

  unfoldable pub decode_single : Bool → Result (List ℕ)
  decode_single compact =
      let orig = hdr.original_size in
      let sz = state_size compact in
      let tbl = decomp_select_tbl dict tables (bucket_of hdr) 0 hdr.flags in
      let state = read_state compact payload 0 in
      let state1 = read_state compact payload sz in
      if no_class dict 0 (has hdr.flags flag_bigram)
      then err undefined_behaviour
      else if not tbl.valid
      then err dict_invalid
      else if has hdr.flags flag_x2
      then (if ltb (length payload) (2 * sz)
          then err corrupt
          else decoded (decode_x2 tbl (Reader.init (drop (2 * sz) payload)) orig state state1))
      else if ltb (length payload) sz
      then err corrupt
      else if bad_state params_12 state
      then err corrupt
      else decoded (decode tbl (Reader.init (drop sz payload)) orig state)

  -- `decode_tans`; `dict` is not null.
  unfoldable pub decode_tans : List ℕ → Bool → Result (List ℕ)
  unfolding decode_mreg decode_single
  decode_tans dst compact =
      if has hdr.flags flag_mreg then decode_mreg dst else decode_single compact

  -- The payload of `NETC_ALG_TANS_PCTX`, before the inverse filter.
  unfoldable pub decode_contexts : Bool → Result (List ℕ)
  decode_contexts compact =
      let orig = hdr.original_size in
      let sz = state_size compact in
      let state = read_state compact payload 0 in
      let r = Reader.init (drop sz payload) in
      if ltb (length payload) sz
      then err corrupt
      else if bad_state params_12 state
      then err corrupt
      else if has hdr.flags flag_bigram && (dict.bigram_tables 0 0).valid
      then decoded
          (decode_pctx_bigram dict.bigram_tables tables (some dict.bigram_class_map) r orig state)
      else decoded (decode_pctx tables r orig state)

  -- The payload of `NETC_ALG_TANS_10`.
  unfoldable pub decode_tans_10 : Result (List ℕ)
  unfolding freq_rescale_12_to_10
  decode_tans_10 =
      let tbl12 = tables (bucket_of hdr) in
      let state = read_u16_le payload 0 in
      if not tbl12.valid
      then err dict_invalid
      else if ltb (length payload) 2
      then err corrupt
      else if bad_state params_10 state
      then err corrupt
      else tans_10_with hdr payload (table_10 (freq_rescale_12_to_10 tbl12.freq))
