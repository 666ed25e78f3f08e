-- ===== src/Tans.antt =====
-- The tANS codec: src/algo/netc_tans.h and src/algo/netc_tans.c.
pub mod Params
pub mod Table
pub mod Buckets
pub mod Codec
pub mod Step
pub mod Loops
pub mod RoundTrip
pub mod PerContext
pub mod Dual
pub mod DualTrip
pub mod Odd
pub mod Log
pub mod Rescale
pub mod Spread
pub mod Built
mod Tests
