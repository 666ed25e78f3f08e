-- ===== src/Header.antt =====
-- The packet headers of src/core/netc_internal.h.
pub mod Types
pub mod Wire
pub mod Layout
mod Tests
