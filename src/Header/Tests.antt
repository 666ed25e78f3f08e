-- ===== src/Header/Tests.antt =====
-- The headers of src/core/netc_internal.h on concrete packets.
use netc.Prelude.{◌≡◌, refl, arith, [], ◌∷◌, ◌++◌, true, false, length, none}
use netc.Result.{ok, err, corrupt}
use netc.Header.Types.{
  pkt_type_table, compact_type_encode, is_type, compact_type_encode-pkt_type_table,
}
use netc.Header.Wire.{PktHeader, hdr_read_compact, hdr_emit, validate_header}
use netc.Header.Layout.{IsHeader}
use netc.Header.Layout.{validate_header-hdr_emit, validate_header-hdr_emit_compact}

-- A packet of type 0x25: tANS with a delta, in bucket 5.
abbrev header : PktHeader
header = record {
  original_size = 300;
  compressed_size = 2;
  flags = 9;
  algorithm = 0x51;
  model_id = 7;
  context_seq = 255;
}

header-IsHeader : IsHeader header
header-IsHeader = omega arith

type_0x25 : is_type 0x25 ≡ true
unfolding pkt_type_table
type_0x25 = refl

flags_0x25 : 9 ≡ (pkt_type_table 0x25).0
unfolding pkt_type_table
flags_0x25 = refl

algorithm_0x25 : 0x51 ≡ (pkt_type_table 0x25).1
unfolding pkt_type_table
algorithm_0x25 = refl

emitted : hdr_emit header true ≡ 0x25 ∷ 0x80 ∷ 44 ∷ 1 ∷ []
unfolding hdr_emit compact_type_encode
emitted = refl

reserved_type : hdr_read_compact (0x0f ∷ 3 ∷ []) header ≡ none
unfolding hdr_read_compact pkt_type_table
reserved_type = refl

compact_type_encode-pkt_type_table_example :
    compact_type_encode (pkt_type_table 0x25).0 (pkt_type_table 0x25).1 ≡ 0x25
compact_type_encode-pkt_type_table_example =
    compact_type_encode-pkt_type_table 0x25 (omega arith) type_0x25

validate_header-hdr_emit_example :
    validate_header (hdr_emit header false ++ (1 ∷ [])) 300 header false ≡ err corrupt
validate_header-hdr_emit_example =
    validate_header-hdr_emit header header (1 ∷ []) 300 header-IsHeader

validate_header-hdr_emit_compact_example :
    validate_header (hdr_emit header true ++ (1 ∷ 2 ∷ [])) 300 header true
    ≡ ok (header, length (hdr_emit header true))
validate_header-hdr_emit_compact_example =
    validate_header-hdr_emit_compact header header 0x25 (1 ∷ 2 ∷ []) 300 (omega arith) type_0x25
      flags_0x25 algorithm_0x25 (omega arith) (omega arith)
