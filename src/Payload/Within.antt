-- ===== src/Payload/Within.antt =====
-- Sizes of what `decode_tans` and the other payload decoders of src/core/netc_decompress.c return.
use netc.Prelude.{ℕ, zero, suc, ◌+◌, ◌-◌, ◌*◌, ◌≤◌, arith, List, ◌++◌}
use netc.Prelude.{Bool, true, false, ◌&&◌, ◌||◌, not, Option, none, some}
use netc.Prelude.{ltb, ◌==◌, if◌then◌else◌, length, length-append, take, drop, length-take, get_or}
use netc.Result.{Result, ok, err, Error, corrupt, ◌>>=◌, dict_invalid}
use netc.Bitstream.Reader
use netc.Tans.Params.{params_12, params_10}
use netc.Tans.Table.{Table}
use netc.Tans.Rescale.{freq_rescale_12_to_10}
use netc.Tans.Buckets.{bucket_start_offset}
use netc.Tans.Codec.{decode, bad_state}
use netc.History.{splice}
use netc.Header.Types.{flag_mreg}
use netc.Header.Wire.{PktHeader, read_u16_le}
use netc.Context.{Dict, has}
use netc.Header.Types.{flag_bigram}
use netc.Result.{undefined_behaviour}
use netc.Payload.Encode.{no_class, state_size}
use netc.Payload.Decode.{
  table_10, tans_10_with, decoded, decode_tans, decode_mreg, decode_single, decode_contexts,
  decode_tans_10, Regions, region, regions, decomp_select_tbl, bucket_of, read_state, read_u32_le,
}
use netc.Payload.Sizes.{
  decoded-Sized, decode-Counted, decode_10-Counted, decode_pctx-Counted, decode_pctx_bigram-Counted,
  decode_x2-Counted,
}
use netc.Decompress.Sizes.{Sized, err-Sized, ok-Sized, either-Sized, unless-Sized}
use netc.Prelude.{length-drop}

-- The output of the regions stays within its size.
abbrev Keeps : ℕ → Result Regions → Type 0
Keeps n (err e) = Unit
Keeps n (ok s) = length s.dst ≤ n

record Kept (n : ℕ) (o : Result Regions) : Type 0 where
  pub holds : Keeps n o

err-Kept : (n : ℕ) (e : Error) → Kept n (err e)
err-Kept n e = record { holds = tt }

length-splice :
    (n at size : ℕ) (bytes xs : List ℕ)
    → length xs ≤ n
    → length bytes ≤ size
    → at + size ≤ n
    → length (splice at bytes xs) ≤ n
length-splice n at size bytes xs hx hb h = omega (
  arith,
  length-append (take at xs) (bytes ++ drop (at + length bytes) xs),
  length-append bytes (drop (at + length bytes) xs),
  length-take at xs,
  length-drop (at + length bytes) xs,
)

kept_lem :
    (n at size offset prev : ℕ) (s : Regions) (o : Result (List ℕ))
    → length s.dst ≤ n
    → at + size ≤ n
    → Sized size o
    → Kept n (
        o >>= λ (bytes : List ℕ). ok (record {
          dst = splice at bytes s.dst;
          bits_offset = offset;
          region_prev_byte = get_or (splice at bytes s.dst) prev 0;
        }))
kept_lem n at size offset prev s (err e) hs h it = err-Kept n e
kept_lem n at size offset prev s (ok bytes) hs h it = record {
  holds = length-splice n at size bytes s.dst hs it.holds h;
}

unless-Kept :
    (n : ℕ) (b : Bool) (e : Error) (o : Result Regions) → Kept n o → Kept n (if b then err e else o)
unless-Kept n true e o h = err-Kept n e
unless-Kept n false e o h = h

skip-Kept :
    (n : ℕ) (b : Bool) (s : Regions) (o : Result Regions)
    → length s.dst ≤ n
    → Kept n o
    → Kept n (if b then ok s else o)
skip-Kept n true s o hs h = record { holds = hs }
skip-Kept n false s o hs h = h

region_bounds :
    (start stop n : ℕ)
    → let region_start = (if ltb start n then start else n) in
      let region_end = (if ltb stop n then stop else n) in
      region_start + (region_end - region_start) ≤ n
region_bounds start stop n = ground arith

rest-Sized :
    (n : ℕ) (o : Result Regions) (f : Regions → Result Regions)
    → Kept n o
    → ((s : Regions) → length s.dst ≤ n → Sized n (f s >>= λ s. ok s.dst))
    → Sized n ((o >>= f) >>= λ s. ok s.dst)
rest-Sized n (err e) f h hf = err-Sized n e
rest-Sized n (ok s) f h hf = hf s h.holds

module _ (dict : Dict) (tables : ℕ → Table) (hdr : PktHeader) (payload : List ℕ) where
  region-Kept :
      (base : List ℕ) (r : ℕ) (s : Regions)
      → length s.dst ≤ hdr.original_size
      → Kept hdr.original_size (region dict tables hdr payload base r s)
  unfolding region
  region-Kept base r s hs =
      let orig = hdr.original_size in
      let state = read_u32_le payload (1 + r * 8) in
      let bs_bytes = read_u32_le payload (1 + r * 8 + 4) in
      let rstart = bucket_start_offset r in
      let rend_bound = bucket_start_offset (r + 1) in
      let region_start = (if ltb rstart orig then rstart else orig) in
      let region_end = (if ltb rend_bound orig then rend_bound else orig) in
      let region_len = region_end - region_start in
      let tbl = decomp_select_tbl dict tables r s.region_prev_byte hdr.flags in
      let stream = take bs_bytes (drop s.bits_offset base) in
      let coded = decode tbl (Reader.init stream) region_len state in
      let outside = no_class dict s.region_prev_byte (has hdr.flags flag_bigram) in
      skip-Kept orig ((state == 0 && bs_bytes == 0) || region_len == 0) s _ hs (
        unless-Kept orig (bad_state params_12 state) corrupt _ (
          unless-Kept orig (ltb (length base) (s.bits_offset + bs_bytes)) corrupt _ (
            unless-Kept orig outside undefined_behaviour _ (
              unless-Kept orig (not tbl.valid) dict_invalid _ (
                kept_lem orig region_start region_len (s.bits_offset + bs_bytes) (region_end - 1) s
                  (decoded coded) hs (region_bounds rstart rend_bound orig)
                  (decoded-Sized region_len coded
                    (decode-Counted tbl (Reader.init stream) region_len state)))))))

  regions-Sized :
      (base : List ℕ) (left r : ℕ) (s : Regions)
      → length s.dst ≤ hdr.original_size
      → Sized hdr.original_size (regions dict tables hdr payload base left r s >>= λ s. ok s.dst)
  unfolding regions
  regions-Sized base zero r s hs = ok-Sized hdr.original_size s.dst hs
  regions-Sized base (suc left) r s hs =
      rest-Sized hdr.original_size (region dict tables hdr payload base r s)
        (regions dict tables hdr payload base left (r + 1)) (region-Kept base r s hs)
        (λ s' hs'. regions-Sized base left (r + 1) s' hs')

  mreg-Sized : (dst : List ℕ) → Sized hdr.original_size (decode_mreg dict tables hdr payload dst)
  unfolding decode_mreg
  mreg-Sized dst =
      let orig = hdr.original_size in
      let n_regions = get_or payload 0 0 in
      let hdr_bytes = 1 + n_regions * 8 in
      let start : Regions = record { dst = take orig dst; bits_offset = 0; region_prev_byte = 0 } in
      unless-Sized orig (ltb (length payload) 1) corrupt _ (λ _.
        unless-Sized orig (n_regions == 0 || ltb 16 n_regions) corrupt _ (λ _.
          unless-Sized orig (ltb (length payload) hdr_bytes) corrupt _ (λ _.
            regions-Sized (drop hdr_bytes payload) n_regions 0 start
              (omega (arith, length-take orig dst)))))

  single-Sized :
      (compact : Bool) → Sized hdr.original_size (decode_single dict tables hdr payload compact)
  unfolding decode_single
  single-Sized compact =
      let orig = hdr.original_size in
      let sz = state_size compact in
      let tbl = decomp_select_tbl dict tables (bucket_of hdr) 0 hdr.flags in
      let state = read_state compact payload 0 in
      let state1 = read_state compact payload sz in
      let invalid = err-Sized orig dict_invalid in
      let lost = err-Sized orig undefined_behaviour in
      let bad = err-Sized orig corrupt in
      let two =
        decoded-Sized orig _
          (decode_x2-Counted tbl (Reader.init (drop (2 * sz) payload)) orig state state1) in
      let one =
        decoded-Sized orig _ (decode-Counted tbl (Reader.init (drop sz payload)) orig state) in
      ground arith

  pub contexts-Sized :
      (compact : Bool) → Sized hdr.original_size (decode_contexts dict tables hdr payload compact)
  unfolding decode_contexts
  contexts-Sized compact =
      let orig = hdr.original_size in
      let sz = state_size compact in
      let state = read_state compact payload 0 in
      let r = Reader.init (drop sz payload) in
      let bad = err-Sized orig corrupt in
      let two = decoded-Sized orig _ (
        decode_pctx_bigram-Counted dict.bigram_tables tables (some dict.bigram_class_map) r orig
          state) in
      let one = decoded-Sized orig _ (decode_pctx-Counted tables r orig state) in ground arith

  pub tans-Sized :
      (dst : List ℕ) (compact : Bool)
      → Sized hdr.original_size (decode_tans dict tables hdr payload dst compact)
  unfolding decode_tans
  tans-Sized dst compact =
      either-Sized hdr.original_size (has hdr.flags flag_mreg) _ _ (λ _. mreg-Sized dst)
        (λ _. single-Sized compact)

  built-Sized : (o : Option Table) → Sized hdr.original_size (tans_10_with hdr payload o)
  built-Sized none = err-Sized hdr.original_size dict_invalid
  built-Sized (some t) =
      let r = Reader.init (drop 2 payload) in
      let state = read_u16_le payload 0 in
      decoded-Sized hdr.original_size _ (decode_10-Counted t r hdr.original_size state)

  pub tans_10-Sized : Sized hdr.original_size (decode_tans_10 dict tables hdr payload)
  unfolding decode_tans_10
  tans_10-Sized =
      let orig = hdr.original_size in
      let tbl12 = tables (bucket_of hdr) in
      unless-Sized orig (not tbl12.valid) dict_invalid _ (λ _.
        unless-Sized orig (ltb (length payload) 2) corrupt _ (λ _.
          unless-Sized orig (bad_state params_10 (read_u16_le payload 0)) corrupt _
            (λ _. built-Sized (table_10 (freq_rescale_12_to_10 tbl12.freq)))))
