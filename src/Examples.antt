-- ===== src/Examples.antt =====
-- Concrete inputs for the theorems, and small runs of the definitions.
pub mod Guardrails
pub mod Proofs
pub mod Declarations
pub mod Records
pub mod Batches
pub mod Posts
pub mod Clients
pub mod Receipts
