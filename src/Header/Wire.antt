-- ===== src/Header/Wire.antt =====
-- The packet headers of src/core/netc_internal.h, 8 bytes long or in the compact form of 2 or 4 bytes, and
-- `validate_header` of src/core/netc_decompress.c.
use netc.Prelude.{ℕ, ◌+◌, ◌-◌, ◌*◌, List, [], ◌∷◌, ◌++◌, Bool, true, false}
use netc.Prelude.{◌&&◌, ◌||◌, Option, none, some, ltb, leb, ◌==◌, if◌then◌else◌, u8, u16, ◌>>>◌}
use netc.Prelude.{bit_and, length, get_or}
use netc.Result.{Result, ok, err, corrupt, buf_small}
use netc.Header.Types.{pkt_type_table, compact_type_encode}

-- `netc_pkt_header_t`.
pub record PktHeader : Type 0 where
  pub original_size : ℕ
  pub compressed_size : ℕ
  pub flags : ℕ
  pub algorithm : ℕ
  pub model_id : ℕ
  pub context_seq : ℕ

-- `netc_write_u16_le` and `netc_read_u16_le` on a little-endian target.
abbrev pub write_u16_le : ℕ → List ℕ
write_u16_le v = u8 v ∷ u8 (v >>> 8) ∷ []

abbrev pub read_u16_le : List ℕ → ℕ → ℕ
read_u16_le b at = get_or b at 0 + get_or b (at + 1) 0 * 256

-- `netc_hdr_write` and `netc_hdr_read`.
unfoldable pub hdr_write : PktHeader → List ℕ
hdr_write h =
    write_u16_le h.original_size
    ++ (write_u16_le h.compressed_size ++ (h.flags ∷ h.algorithm ∷ h.model_id ∷ h.context_seq ∷ []))

unfoldable pub hdr_read : List ℕ → PktHeader
hdr_read b = record {
  original_size = read_u16_le b 0;
  compressed_size = read_u16_le b 2;
  flags = get_or b 4 0;
  algorithm = get_or b 5 0;
  model_id = get_or b 6 0;
  context_seq = get_or b 7 0;
}

-- `netc_hdr_write_compact`.
unfoldable pub hdr_write_compact : ℕ → ℕ → List ℕ
hdr_write_compact pkt_type original_size =
    if leb original_size 127
    then pkt_type ∷ original_size ∷ []
    else pkt_type ∷ 0x80 ∷ write_u16_le original_size

-- `netc_hdr_emit`: the header's bytes.
unfoldable pub hdr_emit : PktHeader → Bool → List ℕ
unfolding hdr_write hdr_write_compact
hdr_emit h compact =
    if compact
    then hdr_write_compact (compact_type_encode h.flags h.algorithm) h.original_size
    else hdr_write h

-- `netc_hdr_read_compact`: the header and its size, or `none` for
-- the return value 0. The other fields of the header are kept.
unfoldable pub hdr_read_compact : List ℕ → PktHeader → Option (PktHeader × ℕ)
hdr_read_compact b hdr =
    let pkt_type = get_or b 0 0 in
    let (flags, algorithm) = pkt_type_table pkt_type in
    let short = record hdr {
      flags = flags;
      algorithm = algorithm;
      original_size = bit_and (get_or b 1 0) 0x7f;
    } in
    let long = record hdr {
      flags = flags;
      algorithm = algorithm;
      original_size = read_u16_le b 2;
    } in
    if ltb (length b) 2
    then none
    else if pkt_type == 0xff || (flags == 0 && algorithm == 0)
    then none
    else if bit_and (get_or b 1 0) 0x80 == 0
    then some (short, 2)
    else if ltb (length b) 4
    then none
    else some (long, 4)

abbrev pub compact_form : List ℕ → ℕ → Option (PktHeader × ℕ) → Result (PktHeader × ℕ)
compact_form src dst_cap none = err corrupt
compact_form src dst_cap (some (hdr, hdr_sz)) =
    if ltb 65535 hdr.original_size
    then err corrupt
    else if ltb dst_cap hdr.original_size
    then err buf_small
    else ok (record hdr { compressed_size = u16 (length src - hdr_sz) }, hdr_sz)

-- `validate_header`: the header and its size. `hdr` is what the caller's header held before.
unfoldable pub validate_header : List ℕ → ℕ → PktHeader → Bool → Result (PktHeader × ℕ)
unfolding hdr_read_compact hdr_read
validate_header src dst_cap hdr true = compact_form src dst_cap (hdr_read_compact src hdr)
validate_header src dst_cap hdr false =
    let hdr = hdr_read src in
    if ltb (length src) 8
    then err corrupt
    else if ltb 65535 hdr.original_size
    then err corrupt
    else if ltb dst_cap hdr.original_size
    then err buf_small
    else if ltb (length src) (8 + hdr.compressed_size)
    then err corrupt
    else ok (hdr, 8)
