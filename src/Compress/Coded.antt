-- ===== src/Compress/Coded.antt =====
-- The paths of `netc_compress` in src/core/netc_compress.c that have a dictionary: the coders in competition, and the
-- second try on the raw bytes when the residuals do not compress.
use netc.Prelude.{ℕ, ◌+◌, ◌-◌, ◌*◌, ◌/◌, ◌^◌, min, List, [], ◌∷◌, ◌++◌, Bool, true, false}
use netc.Prelude.{◌&&◌, ◌||◌, not, Option, none, some}
use netc.Prelude.{ltb, leb, ◌==◌, if◌then◌else◌, u8, u64, bit_and, bit_or, length, take}
use netc.Prelude.Fallible
use netc.Bitstream.Reader.{Outcome, done, failed, undefined, ◌>>=◌}
use netc.Tans.Codec.{from_option}
use netc.Tans.Table.{Table, build_10}
use netc.Tans.Rescale.{freq_rescale_12_to_10}
use netc.Lzp.{LzpTable, xor_filter}
use netc.Lz77.Encode.{lz77_encode}
use netc.Lz77x.{lz77x_encode}
use netc.Header.Types.{
  flag_bigram, flag_dict_id, flag_rle, flag_x2, alg_tans, alg_tans_pctx, alg_lzp, alg_tans_10,
}
use netc.Context.{Dict, Ctx, has, cfg_bigram, cfg_fast_compress, packet, get_tables, get_lzp_table}
use netc.Payload.Encode.{
  Payload, Mode, single, pctx, pctx_bigram, try_tans_compress, try_tans_10bit_with_table, no_x2,
  skip_sr,
}
use netc.Compress.{Choice, Prepared, raw, lz77_choice, lz77x_choice}

-- The XOR pre-filter, when no delta was applied.
unfoldable pub lzp_pass : Ctx → List ℕ → Option LzpTable → Prepared → Prepared
lzp_pass ctx src none p = p
lzp_pass ctx src (some t) p =
    if not p.did_delta && leb (length src) ctx.arena_size
    then record p { compress_src = xor_filter t src; did_lzp = true }
    else p

-- More than the given number of distinct values among the bytes; `seen` are those before.
abbrev member : ℕ → List ℕ → Bool
member b [] = false
member b (x ∷ xs) = x == b || member b xs

unfoldable pub is_diverse : ℕ → List ℕ → List ℕ → Bool
is_diverse most seen [] = false
is_diverse most seen (b ∷ bytes) =
    let old = member b seen in
    let rest = is_diverse most (if old then seen else seen ++ (b ∷ [])) bytes in
    if not old && leb most (length seen) then true else rest

-- The bytes at the front of a packet that equal those of the packet before.
unfoldable pub same_bytes : List ℕ → List ℕ → ℕ
same_bytes (a ∷ src) (b ∷ prev) =
    let rest = same_bytes src prev in if a == b then rest + 1 else rest
same_bytes _ _ = 0

-- `try_lzx`: the payload is large, the packet is like the one before, or it has few distinct bytes.
unfoldable pub try_lzx : Ctx → List ℕ → ℕ → Bool
unfolding same_bytes is_diverse
try_lzx ctx src compressed_payload =
    let prev = packet ctx.prev_pkt in
    let check = min (length src) 32 in
    ltb (length src) (compressed_payload * 2)
    || (length prev == length src && leb check (same_bytes (take check src) prev * 2))
    || not (is_diverse 4 [] (take check src))

-- A rival stream that is smaller than the payload and the packet and fits.
abbrev wins : List ℕ → ℕ → ℕ → ℕ → Option (List ℕ) → Option (List ℕ)
wins src cp hdr_sz dst_cap none = none
wins src cp hdr_sz dst_cap (some out) =
    if ltb (length out) cp && ltb (length out) (length src) && leb (hdr_sz + length out) dst_cap
    then some out
    else none

-- The competition with matches in the ring.
unfoldable pub lz77x_rival : Ctx → List ℕ → ℕ → ℕ → ℕ → Option Choice
unfolding try_lzx
lz77x_rival ctx src cp hdr_sz dst_cap =
    let prev_pkt_size = length (packet ctx.prev_pkt) in
    if not (length ctx.ring.ring == 0)
      && ltb 0 prev_pkt_size
      && leb 64 (length src)
      && leb (length src) ctx.arena_size
      && try_lzx ctx src cp
    then Fallible.◌>>=◌
        (wins src cp hdr_sz dst_cap
          (lz77x_encode src ctx.ring.ring ctx.ring.ring_pos prev_pkt_size ctx.arena_size))
        (λ out. some (lz77x_choice false out))
    else none

-- The competition with matches in the packet: of the raw bytes (case A), or of the residuals (case B).
unfoldable pub lz77_rival : Ctx → List ℕ → Prepared → ℕ → ℕ → ℕ → Option Choice
unfolding is_diverse
lz77_rival ctx src p cp hdr_sz dst_cap =
    let lz77_min = (if has ctx.flags cfg_fast_compress then 512 else 256) in
    let payload_cap = u64 (dst_cap + 2 ^ 64 - hdr_sz) in
    let case_a = wins src cp hdr_sz dst_cap (lz77_encode src ctx.arena_size) in
    let case_b = wins src cp hdr_sz dst_cap (lz77_encode p.compress_src payload_cap) in
    let tried = leb lz77_min (length src) && ltb (length src) (cp * 2) in
    let out =
      (if not tried
        then none
        else if not p.did_delta && leb (length src) ctx.arena_size
        then case_a
        else if p.did_delta
            && leb (length src) 1024
            && not (has p.pkt_flags flag_rle)
            && not (is_diverse 4 [] (take 32 p.compress_src))
        then case_b
        else none) in
    Fallible.◌>>=◌ out (λ o. some (lz77_choice p.pkt_flags o))

-- The payload of a 10-bit table that is rescaled from that of the winning bucket, when it is smaller;
-- `failed` keeps the other.
unfoldable pub ten_bit : (ℕ → Table) → List ℕ → Payload → Bool → Outcome (List ℕ)
ten_bit tables compress_src p allowed =
    let coded = (do
      freq10 ← from_option (freq_rescale_12_to_10 (tables p.table_idx).freq)
      tbl10 ← from_option (build_10 freq10)
      out ← try_tans_10bit_with_table tbl10 compress_src 136
      if ltb (length out) (length p.bytes) then done out else failed) in
    if allowed then coded else failed

abbrev is_single : Mode → Bool
is_single single = true
is_single pctx = false
is_single pctx_bigram = false

abbrev is_bigram : Mode → Bool → Bool
is_bigram single bigram = bigram
is_bigram pctx bigram = false
is_bigram pctx_bigram bigram = true

-- The flags and the algorithm of an entropy-coded packet.
unfoldable pub coded_choice : ℕ → Payload → Option (List ℕ) → Bool → Bool → Choice
coded_choice pkt_flags p (some ten) did_lzp bigram = record {
  flags = pkt_flags;
  algorithm = u8 (alg_tans_10 + p.table_idx * 16);
  payload = ten;
  passthru = false;
}
coded_choice pkt_flags p none did_lzp bigram = record {
  flags =
      pkt_flags
      + (if p.x2 then flag_x2 else 0)
      + (if is_bigram p.mode bigram then flag_bigram else 0);
  algorithm =
      if is_single p.mode
      then u8 ((if did_lzp then alg_lzp else alg_tans) + p.table_idx * 16)
      else if did_lzp
      then alg_tans_pctx + 0x10
      else alg_tans_pctx;
  payload = p.bytes;
  passthru = false;
}

abbrev first_of : Option Choice → Option Choice → Outcome Choice → Outcome Choice
first_of (some c) other last = done c
first_of none (some c) last = done c
first_of none none last = last

-- A payload that is smaller than the packet.
abbrev compressing : List ℕ → Outcome Payload → Outcome Payload
compressing src coded = do p ← coded; if ltb (length p.bytes) (length src) then done p else failed

abbrev with_ten : Outcome (List ℕ) → (Option (List ℕ) → Choice) → Outcome Choice
with_ten undefined choice = undefined
with_ten failed choice = done (choice none)
with_ten (done ten) choice = done (choice (some ten))

-- `ctx->flags & ~(uint32_t)NETC_CFG_FLAG_DELTA`.
abbrev without_delta : ℕ → ℕ
without_delta flags = bit_and flags (2 ^ 32 - 1 - 4)

abbrev with_flag : Bool → ℕ → ℕ → ℕ
with_flag b flag flags = if b then bit_or flags flag else flags

module _ (ctx : Ctx) (d : Dict) (src : List ℕ) (hdr_sz dst_cap : ℕ) (compact : Bool) where
  -- What the coders have made of a packet: the bytes coded and the payload, with the coder's flags.
  pub record Coded : Type 0 where
    pub prepared : Prepared
    pub payload : Payload
    pub tans_flags : ℕ

  code : Prepared → ℕ → ℕ → Outcome Coded
  code p tans_flags cap = do
    payload ←
        compressing src
          (try_tans_compress d (get_tables ctx d) p.compress_src cap tans_flags compact)
    done (record { prepared = p; payload = payload; tans_flags = tans_flags })

  abbrev payload_cap : ℕ
  payload_cap = u64 (dst_cap + 2 ^ 64 - hdr_sz)

  -- The filtered raw bytes against the residuals, for small packets.
  rival_flags : ℕ
  rival_flags = bit_or (with_flag compact no_x2 (without_delta ctx.flags)) skip_sr

  lzp_rival : Option LzpTable → Coded → Outcome Coded
  unfolding code rival_flags
  lzp_rival none c = done c
  lzp_rival (some t) c =
      let p : Prepared = record {
        compress_src = xor_filter t src;
        pkt_flags = flag_dict_id;
        did_delta = false;
        did_lzp = true;
      } in
      let cp = length c.payload.bytes in
      if c.prepared.did_delta
        && leb (length src) 512
        && not (has ctx.flags cfg_fast_compress)
        && (leb (length src) 256 || leb (length src / 2) cp)
      then smaller (code p rival_flags 520)
      else done c
    where
      smaller : Outcome Coded → Outcome Coded
      smaller undefined = undefined
      smaller failed = done c
      smaller (done other) =
          if ltb (length other.payload.bytes) (length c.payload.bytes) then done other else done c

  settle : Bool → Coded → Outcome Choice
  unfolding lz77x_rival lz77_rival ten_bit coded_choice
  settle first c =
      let p = c.prepared in
      let cp = length c.payload.bytes in
      let bigram = has c.tans_flags cfg_bigram in
      let allowed =
        leb (length src) 128
        && is_single c.payload.mode
        && not p.did_lzp
        && not bigram
        && compact in
      let ten = ten_bit (get_tables ctx d) p.compress_src c.payload allowed in
      let last = (λ (t : Option (List ℕ)). coded_choice p.pkt_flags c.payload t p.did_lzp bigram) in
      first_of (if first then lz77_rival ctx src p cp hdr_sz dst_cap else none)
        (lz77x_rival ctx src cp hdr_sz dst_cap) (with_ten ten last)

  -- The first try, on what the passes left.
  unfoldable pub first_try : Prepared → Outcome Choice
  unfolding code lzp_rival settle
  first_try p =
      let no_dual = with_flag (p.did_lzp && compact) no_x2 ctx.flags in
      let skips = p.did_delta || p.did_lzp || has ctx.flags cfg_fast_compress in
      do
        c ← code p (with_flag skips skip_sr no_dual) payload_cap
        c' ← lzp_rival (get_lzp_table ctx) c
        settle true c'

  -- The second try, on the raw bytes.
  unfoldable pub second_try : Prepared → Outcome Choice
  unfolding code settle
  second_try p =
      let flags = without_delta ctx.flags in
      if not p.did_delta then failed else retry flags (get_lzp_table ctx)
    where
      again : Prepared → ℕ → Outcome Choice
      again q flags = code q flags payload_cap >>= λ c. settle false c

      retry : ℕ → Option LzpTable → Outcome Choice
      retry flags none = again (raw src) flags
      retry flags (some t) =
          if leb (length src) ctx.arena_size
          then again (record (raw src) { compress_src = xor_filter t src; did_lzp = true })
              (with_flag compact no_x2 flags)
          else again (raw src) flags
