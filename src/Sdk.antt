-- ===== src/Sdk.antt =====
-- The client of packages/sdk/src: its HTTP wrapper, its checks of a request and its polling.
pub mod Http
pub mod Options
