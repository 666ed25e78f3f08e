-- ===== src/Decompress/Tests.antt =====
-- Packets for `netc_decompress` and `netc_decompress_stateless` of src/core/netc_decompress.c, of which some are noise.
use netc.Prelude.{ℕ, ◌+◌, ◌≡◌, ◌≤◌, refl, length, List, [], ◌∷◌, none, replicate}
use netc.Result.{ok, err, corrupt, buf_small}
use netc.Context.{Dict, zero_table, Ctx, cfg_stateful, cfg_compact_hdr, created}
use netc.Header.Types.{pkt_type_table}
use netc.Header.Wire.{validate_header}
use netc.Rle.{rle_decode}
use netc.Prelude.{some}
use netc.Decompress.{decompress, decompress_stateless}
use netc.Decompress.Stateless.{decompress_stateless-fits}

abbrev receiver : Ctx
receiver = created none (record {
  flags = cfg_stateful + cfg_compact_hdr;
  ring_buffer_size = 16;
  compression_level = 5;
  simd_level = 0;
  arena_size = 64;
})

-- Two runs, of which the second would pass the announced size.
abbrev too_long : List ℕ
too_long = 0x03 ∷ 0x05 ∷ 0x04 ∷ 0x61 ∷ 0x09 ∷ 0x62 ∷ []

refused : decompress receiver too_long (replicate 5 0) ≡ some (err corrupt, receiver)
unfolding decompress validate_header pkt_type_table rle_decode
refused = refl

no_room : decompress receiver too_long (replicate 4 0) ≡ some (err buf_small, receiver)
unfolding decompress validate_header pkt_type_table
no_room = refl

abbrev one_run : List ℕ
one_run = 0x03 ∷ 0x04 ∷ 0x04 ∷ 0x61 ∷ []

restored_run : rle_decode (0x04 ∷ 0x61 ∷ []) 4 ≡ ok (replicate 4 0x61)
unfolding rle_decode
restored_run = refl

abbrev no_tables : Dict
no_tables = record {
  model_id = 7;
  tables = λ b. zero_table;
  bigram_tables = λ b c. zero_table;
  bigram_class_map = λ x. 0;
  lzp_table = none;
}

-- Three plain bytes under a full header.
abbrev plain : List ℕ
plain = 3 ∷ 0 ∷ 3 ∷ 0 ∷ 12 ∷ 0xff ∷ 0 ∷ 0 ∷ 1 ∷ 2 ∷ 3 ∷ []

abbrev one_two_three : List ℕ
one_two_three = 1 ∷ 2 ∷ 3 ∷ []

plain_read : decompress_stateless no_tables plain (replicate 4 0) ≡ ok one_two_three
unfolding decompress_stateless validate_header
plain_read = refl

abbrev buffer : List ℕ
buffer = replicate 4 0

decompress_stateless-fits_example : length one_two_three ≤ length buffer
decompress_stateless-fits_example =
    decompress_stateless-fits no_tables plain buffer one_two_three plain_read
