-- ===== src/Bitstream.antt =====
-- The bit-level writer and reader of src/util/netc_bitstream.h, and the stack of bits that they
-- implement: the writer pushes at the end, and the reader, which walks the bytes backwards, pops
-- what was pushed last.
pub mod Writer
pub mod Reader
pub mod Value
pub mod Pushes
pub mod Flush
pub mod Pops
pub mod Opens
pub mod RoundTrip
mod Tests
