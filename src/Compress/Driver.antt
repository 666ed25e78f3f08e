-- ===== src/Compress/Driver.antt =====
-- `netc_compress` and `netc_compress_stateless` of src/core/netc_compress.c as a whole.
use netc.Prelude.{ℕ, ◌+◌, ◌-◌, ◌*◌, ◌^◌, List, Bool, true, false, ◌&&◌}
use netc.Prelude.{Option, none, some, ltb, leb, if◌then◌else◌, u8, u64, length}
use netc.Bitstream.Reader.{Outcome, done, failed, undefined}
use netc.Result.{undefined_behaviour, Result, ok, err, toobig, buf_small}
use netc.Lzp.{LzpTable, xor_filter}
use netc.Lz77.Encode.{lz77_encode}
use netc.Header.Types.{flag_dict_id}
use netc.Context.{Dict, Ctx, has, cfg_compact_hdr, get_lzp_table}
use netc.Payload.Encode.{Payload, try_tans_compress}
use netc.Compress.{
  Choice, Prepared, raw, emit, delta_pass, lz77_choice, plain_choice, packet_bytes, compress_tail,
}
use netc.Compress.Coded.{lzp_pass, first_try, second_try, coded_choice}

abbrev pub header_size : Bool → ℕ → ℕ
header_size compact src_size = if compact then (if leb src_size 127 then 2 else 4) else 8

-- The guard on the arena: the second try may have put the filtered bytes where the residuals were.
unfoldable pub guarded : Ctx → List ℕ → Prepared → Option LzpTable → Prepared
guarded ctx src p none = p
guarded ctx src p (some t) = if p.did_delta && leb (length src) ctx.arena_size then raw src else p

abbrev or_else : Outcome Choice → Outcome Choice → Outcome Choice
or_else failed other = other
or_else (done c) other = done c
or_else undefined other = undefined

-- The paths with a dictionary, up to the guard. Each of them writes a header at the start of `dst`: in a buffer
-- without room for it the run is undefined, which is `none`.
unfoldable pub compress_with :
    Dict → Ctx → List ℕ → ℕ → ℕ → ℕ → Bool → Prepared → Option (Result (List ℕ) × Ctx)
compress_with d ctx src seq hdr_sz dst_cap compact p =
    let q = lzp_pass ctx src (get_lzp_table ctx) p in
    let coded =
      (if ltb 0 (length src)
        then or_else (first_try ctx d src hdr_sz dst_cap compact q)
            (second_try ctx d src hdr_sz dst_cap compact q)
        else failed) in
    if ltb dst_cap hdr_sz then none else chosen q coded
  where
    chosen : Prepared → Outcome Choice → Option (Result (List ℕ) × Ctx)
    chosen q undefined = none
    chosen q (done c) = some (emit ctx src seq compact c)
    chosen q failed =
        compress_tail ctx src (guarded ctx src q (get_lzp_table ctx)) seq hdr_sz dst_cap compact

unfoldable pub compress_any :
    Option Dict → Ctx → List ℕ → ℕ → ℕ → ℕ → Bool → Prepared → Option (Result (List ℕ) × Ctx)
unfolding compress_with
compress_any none ctx src seq hdr_sz dst_cap compact p =
    compress_tail ctx src p seq hdr_sz dst_cap compact
compress_any (some d) ctx src seq hdr_sz dst_cap compact p =
    compress_with d ctx src seq hdr_sz dst_cap compact p

-- `netc_compress`: the packet and the context after it, or `none` for an undefined run.
unfoldable pub compress : Ctx → List ℕ → ℕ → Option (Result (List ℕ) × Ctx)
unfolding compress_any
compress ctx src dst_cap =
    let compact = has ctx.flags cfg_compact_hdr in
    let next = record ctx { context_seq = u8 (ctx.context_seq + 1) } in
    if ltb 65535 (length src)
    then some (err toobig, ctx)
    else if ltb dst_cap 2
    then some (err buf_small, ctx)
    else compress_any ctx.dict next src ctx.context_seq (header_size compact (length src)) dst_cap
        compact (delta_pass next src)

-- The stateless paths: the packet that is chosen for a payload of the coders.
abbrev stateless_lz77 : List ℕ → ℕ → Option (List ℕ) → Outcome Choice
stateless_lz77 src dst_cap none = failed
stateless_lz77 src dst_cap (some out) =
    if ltb (length out) (length src) && leb (8 + length out) dst_cap
    then done (lz77_choice flag_dict_id out)
    else failed

unfoldable pub stateless_coded : Dict → List ℕ → ℕ → Outcome Choice
stateless_coded d src dst_cap = filtered d.lzp_table
  where
    rival : Payload → Bool → Option (List ℕ) → Choice
    rival p did_lzp none = coded_choice flag_dict_id p none did_lzp false
    rival p did_lzp (some out) =
        if ltb (length out) (length p.bytes)
          && ltb (length out) (length src)
          && leb (8 + length out) dst_cap
        then lz77_choice flag_dict_id out
        else coded_choice flag_dict_id p none did_lzp false

    small : Bool → Outcome Payload → Outcome Choice
    small did_lzp undefined = undefined
    small did_lzp failed = failed
    small did_lzp (done p) =
        let tried = ltb (length src) (length p.bytes * 2) && leb (length src) 1024 in
        if ltb (length p.bytes) (length src)
        then done (rival p did_lzp (if tried then lz77_encode src 1024 else none))
        else failed

    code : List ℕ → Bool → Outcome Choice
    code bytes did_lzp =
        small did_lzp (try_tans_compress d d.tables bytes (u64 (dst_cap + 2 ^ 64 - 8)) 0 false)

    filtered : Option LzpTable → Outcome Choice
    filtered none = code src false
    filtered (some t) =
        if leb (length src) 1024 then code (xor_filter t src) true else code src false

-- `netc_compress_stateless`, with a dictionary that is not null.
unfoldable pub compress_stateless : Dict → List ℕ → ℕ → Result (List ℕ)
unfolding stateless_coded
compress_stateless d src dst_cap =
    let lz77 = stateless_lz77 src dst_cap (lz77_encode src (dst_cap - 8)) in
    if ltb 65535 (length src)
    then err toobig
    else if ltb dst_cap 8
    then err buf_small
    else chosen
        (if ltb 0 (length src) then or_else (stateless_coded d src dst_cap) lz77 else failed)
  where
    chosen : Outcome Choice → Result (List ℕ)
    chosen (done c) = ok (packet_bytes (some d) src 0 c false)
    chosen undefined = err undefined_behaviour
    chosen failed =
        let out = packet_bytes (some d) src 0 (plain_choice src) false in
        if ltb dst_cap (length out) then err buf_small else ok out
