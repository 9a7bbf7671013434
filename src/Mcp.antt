-- ===== src/Mcp.antt =====
-- The MCP server of packages/mcp-server/src: configuration, spending ledgers and write tools.
pub mod Config
pub mod Ledger
pub mod Write
pub mod Batch
pub mod Server
pub mod Control
