-- ===== src/Payload.antt =====
-- The entropy-coded payloads: `select_tans_table` and the `try_tans_*` functions of src/core/netc_compress.c,
-- `decode_tans` of src/core/netc_decompress.c.
pub mod Sizes
pub mod Within
pub mod Encode
pub mod Decode
