-- ===== src/Session/Tests.antt =====
-- Connections of src/core/netc_compress.c and src/core/netc_decompress.c with small rings.
use netc.Prelude.{ℕ, ◌+◌, ◌≡◌, refl, arith, List, [], ◌∷◌, none, some, replicate}
use netc.Prelude.{All, false}
use netc.Result.{ok}
use netc.Context.{
  Ctx, Cfg, cfg_stateful, cfg_delta, cfg_stats, cfg_compact_hdr, cfg_adaptive, ctx_create, created,
}
use netc.Compress.{delta_pass, compress_tail, plain_choice, packet_bytes}
use netc.Compress.Driver.{compress}
use netc.Delta.{encode, decode, encode_order2, decode_order2}
use netc.Lz77.{lz77_decode}
use netc.Lz77.Encode.{lz77_encode}
use netc.Header.Types.{compact_type_encode, pkt_type_table}
use netc.Header.Wire.{hdr_emit, validate_header}
use netc.Decompress.{decompress}
use netc.Session.Room.{IsBounded, compress-IsBounded}
use netc.Session.Reset.{receive_all, ResetsTo, ctx_reset-receive_all}
use netc.Session.Trip.{IsLink, decompress-compress}
use netc.Session.Channel.{converse, IsPacket, converse-ctx_create}

abbrev cfg : ℕ → Cfg
cfg flags = record {
  flags = flags;
  ring_buffer_size = 16;
  compression_level = 5;
  simd_level = 0;
  arena_size = 64;
}

abbrev delta_cfg : Cfg
delta_cfg = cfg (cfg_stateful + cfg_delta + cfg_stats)

abbrev packets : List (List ℕ)
packets =
    replicate 12 20
    ∷ replicate 12 30
    ∷ (1 ∷ 2 ∷ 3 ∷ [])
    ∷ []
    ∷ (7 ∷ 7 ∷ 7 ∷ 7 ∷ 7 ∷ 7 ∷ 7 ∷ 7 ∷ [])
    ∷ []

packets-IsPacket : All IsPacket packets
packets-IsPacket = ground arith

delivered : converse (created none delta_cfg) (created none delta_cfg) packets ≡ some packets
unfolding converse compress_tail lz77_encode delta_pass validate_header hdr_emit lz77_decode encode
    decode
delivered = refl

converse-ctx_create_example :
    converse (created none delta_cfg) (created none delta_cfg) packets ≡ some packets
unfolding ctx_create
converse-ctx_create_example =
    converse-ctx_create delta_cfg (created none delta_cfg) packets refl refl packets-IsPacket

fresh-IsLink : IsLink (created none delta_cfg) (created none delta_cfg)
fresh-IsLink = record {
  synced = refl;
  no_dict = refl;
  number = omega arith;
  prev = tt;
  first = λ e. cc;
}

decompress-compress_example :
    (sent : List ℕ) × (c' : Ctx) × (d' : Ctx) × (compress
        (created none delta_cfg)
        (replicate 12 20)
        20
      ≡ some (ok sent, c'))
    × (decompress (created none delta_cfg) sent (replicate 12 0) ≡ some (ok (replicate 12 20), d'))
    × IsLink c' d'
decompress-compress_example =
    decompress-compress (created none delta_cfg) (created none delta_cfg) (replicate 12 20)
      (replicate 12 0) 20 fresh-IsLink (omega arith) (omega arith) (omega arith) (omega arith)

-- Three packets of a straight line, whose third is coded with residuals of the second order.
abbrev line : List (List ℕ)
line = replicate 12 20 ∷ replicate 12 30 ∷ replicate 12 40 ∷ []

abbrev line_cfg : Cfg
line_cfg = cfg (cfg_stateful + cfg_delta + cfg_adaptive)

line_delivered : converse (created none line_cfg) (created none line_cfg) line ≡ some line
unfolding converse compress_tail lz77_encode delta_pass validate_header hdr_emit lz77_decode encode
    decode encode_order2 decode_order2
line_delivered = refl

-- With compact headers the third arrives as the second.
abbrev compact_cfg : Cfg
compact_cfg = cfg (cfg_stateful + cfg_delta + cfg_adaptive + cfg_compact_hdr)

line_garbled :
    converse (created none compact_cfg) (created none compact_cfg) line
    ≡ some (replicate 12 20 ∷ replicate 12 30 ∷ replicate 12 30 ∷ [])
unfolding converse compress_tail lz77_encode delta_pass validate_header hdr_emit lz77_decode encode
    decode encode_order2 compact_type_encode pkt_type_table
line_garbled = refl

abbrev three : List ℕ
three = 1 ∷ 2 ∷ 3 ∷ []

-- A good packet, one cut short and one of noise.
abbrev arrivals : List (List ℕ × List ℕ)
arrivals =
    (packet_bytes none three 0 (plain_choice three) false, replicate 3 0)
    ∷ (4 ∷ 0 ∷ [], replicate 9 0)
    ∷ (replicate 30 255, replicate 9 0)
    ∷ []

ctx_reset-receive_all_example :
    ResetsTo (created none delta_cfg) (receive_all (created none delta_cfg) arrivals) none
unfolding ctx_create
ctx_reset-receive_all_example =
    ctx_reset-receive_all none delta_cfg (created none delta_cfg) arrivals refl

compress-IsBounded_example :
    IsBounded 8 12 14 (compress (created none delta_cfg) (replicate 12 20) 14)
compress-IsBounded_example = compress-IsBounded (created none delta_cfg) (replicate 12 20) 14 refl

-- The header of 8 bytes is written to a buffer of 6.
overflowing : compress (created none delta_cfg) three 6 ≡ none
unfolding compress compress_tail lz77_encode delta_pass hdr_emit encode
overflowing = refl
