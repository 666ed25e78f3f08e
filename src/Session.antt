-- ===== src/Session.antt =====
-- A connection: the contexts of the two ends, from `netc_compress` of src/core/netc_compress.c to `netc_decompress` of
-- src/core/netc_decompress.c.
pub mod Frame
pub mod View
pub mod Delta
pub mod Choices
pub mod Trip
pub mod Channel
pub mod Room
pub mod Reset
mod Tests
