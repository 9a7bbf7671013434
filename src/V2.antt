-- ===== src/V2.antt =====
-- The declarations of version 2, src/v2.
pub mod Store
pub mod Anchor
pub mod Accept
pub mod Receipt
