-- ===== src/Pog.antt =====
-- The Proof of Generation package, packages/pog/src.
pub mod Hex
pub mod Merkle
pub mod Aux
pub mod Identity
pub mod Content
pub mod Declaration
pub mod Events
pub mod Verify
