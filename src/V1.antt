-- ===== src/V1.antt =====
-- The records of version 1: src/services and src/workers.
pub mod Anchoring
pub mod Urls
pub mod Payments
pub mod Records
pub mod WalletAuth
pub mod RateLimit
pub mod Waiting
pub mod Webhooks
