-- ===== src/Header/Layout.antt =====
-- Headers written, read and validated: src/core/netc_internal.h and `validate_header` of
-- src/core/netc_decompress.c.
use netc.Prelude.{ℕ, ◌+◌, ◌-◌, ◌*◌, ◌/◌, ◌^◌, ◌<◌, ◌≤◌, ◌≡◌, refl, arith, List, ◌++◌}
use netc.Prelude.{Bool, true, false, ◌&&◌, ◌||◌, ◌==◌, some, length, length-append}
use netc.Prelude.{u8, u16, IsByte, ltb, leb, bit_and, if◌then◌else◌, all_below, all_below_sound}
use netc.Result.{ok, err, corrupt, buf_small}
use netc.Header.Types.{
  pkt_type_table, compact_type_encode, is_type, compact_type_encode-pkt_type_table,
}
use netc.Header.Wire.{
  PktHeader, hdr_write, hdr_read, hdr_write_compact, hdr_read_compact, hdr_emit, validate_header,
}
use native.Mathlib.Decide.{dec_le}

-- The widths of the fields.
pub record IsHeader (h : PktHeader) : Type 0 where
  pub original_size : h.original_size < 2 ^ 16
  pub compressed_size : h.compressed_size < 2 ^ 16
  pub flags : IsByte h.flags
  pub algorithm : IsByte h.algorithm
  pub model_id : IsByte h.model_id
  pub context_seq : IsByte h.context_seq

word_read : (v : ℕ) → v < 2 ^ 16 → u8 v + u8 (v / 2 ^ 8) * 256 ≡ v
word_read v h = omega arith

seven : ℕ → Bool
seven v = (bit_and v 0x80 == 0) && bit_and v 0x7f == v

seven_checked : all_below 128 seven ≡ true
unfolding seven all_below
seven_checked = refl

seven_bits : (v : ℕ) → v ≤ 127 → ((bit_and v 0x80 == 0) ≡ true) × (bit_and v 0x7f ≡ v)
unfolding seven
seven_bits v h = ground (arith, all_below_sound 128 seven v seven_checked (omega arith))

accepted :
    (b : ℕ)
    → is_type b ≡ true
    → (b == 0xff || ((pkt_type_table b).0 == 0 && (pkt_type_table b).1 == 0)) ≡ false
accepted b t = ground (arith, t)

-- The bytes of a header are read back as the header, whatever follows them.
pub hdr_read-hdr_write :
    (h : PktHeader) (payload : List ℕ) → IsHeader h → hdr_read (hdr_write h ++ payload) ≡ h
unfolding hdr_read hdr_write
hdr_read-hdr_write h payload ih =
    rw (word_read h.original_size ih.original_size, word_read h.compressed_size ih.compressed_size)
      refl

-- A compact header of a type that readers accept is read back, from the fewest bytes: the flags and
-- the algorithm of the type, the size, and the header's length. The other fields are kept.
pub hdr_read_compact-hdr_write_compact :
    (pkt_type size : ℕ) (payload : List ℕ) (hdr : PktHeader)
    → is_type pkt_type ≡ true
    → size < 2 ^ 16
    → hdr_read_compact (hdr_write_compact pkt_type size ++ payload) hdr
      ≡ some (
        record hdr {
          flags = (pkt_type_table pkt_type).0;
          algorithm = (pkt_type_table pkt_type).1;
          original_size = size;
        },
        length (hdr_write_compact pkt_type size),
      )
unfolding hdr_read_compact hdr_write_compact
hdr_read_compact-hdr_write_compact pkt_type size payload hdr t hs = elim (dec_le size 127) [
  | yes short ↦
      let is_short : leb size 127 ≡ true = ground arith in
      rw (is_short, accepted pkt_type t, (seven_bits size short).0, (seven_bits size short).1)
        (ground arith)
  | no long ↦
      let is_long : leb size 127 ≡ false = ground arith in
      rw (is_long, accepted pkt_type t, word_read size hs) (ground arith)
]

-- A full header and its payload pass the validation, unless the buffer is too small for the original
-- size or the payload is shorter than the header says: then the errors are these.
pub validate_header-hdr_emit :
    (h old : PktHeader) (payload : List ℕ) (dst_cap : ℕ)
    → IsHeader h
    → validate_header (hdr_emit h false ++ payload) dst_cap old false ≡ (
        if ltb dst_cap h.original_size
        then err buf_small
        else if ltb (length payload) h.compressed_size
        then err corrupt
        else ok (h, 8))
unfolding hdr_emit validate_header hdr_write hdr_read
validate_header-hdr_emit h old payload dst_cap ih =
    rw (word_read h.original_size ih.original_size, word_read h.compressed_size ih.compressed_size)
      (ground (arith, ih.original_size))

-- A compact header whose flags and algorithm are those of a packet type, with its payload, passes the
-- validation in the same way: the header's size is 2 or 4, and the payload's length is its compressed size.
pub validate_header-hdr_emit_compact :
    (h old : PktHeader) (pkt_type : ℕ) (payload : List ℕ) (dst_cap : ℕ)
    → pkt_type < 256
    → is_type pkt_type ≡ true
    → h.flags ≡ (pkt_type_table pkt_type).0
    → h.algorithm ≡ (pkt_type_table pkt_type).1
    → h.original_size < 2 ^ 16
    → length payload < 2 ^ 16
    → validate_header (hdr_emit h true ++ payload) dst_cap old true ≡ (
        if ltb dst_cap h.original_size
        then err buf_small
        else ok (
          record old {
            flags = h.flags;
            algorithm = h.algorithm;
            original_size = h.original_size;
            compressed_size = length payload;
          },
          length (hdr_emit h true),
        ))
unfolding hdr_emit validate_header
validate_header-hdr_emit_compact h old pkt_type payload dst_cap hb t hf ha hs hp =
    let same : compact_type_encode h.flags h.algorithm ≡ pkt_type =
      rw (hf, ha) (compact_type_encode-pkt_type_table pkt_type hb t) in
    let whole = hdr_read_compact-hdr_write_compact pkt_type h.original_size payload old t hs in
    let payload_size = length-append (hdr_write_compact pkt_type h.original_size) payload in
    let left : u16 (
          length (hdr_write_compact pkt_type h.original_size ++ payload)
          - length (hdr_write_compact pkt_type h.original_size))
        ≡ length payload =
      omega (arith, payload_size, hp) in
    rw (same, whole, left, hf, ha) (ground (arith, hs))
