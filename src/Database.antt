-- ===== src/Database.antt =====
-- src/helix_mcp/services/database: SQL queries that wait for approval.
pub mod Plans
pub mod Rows
pub mod Persistent
pub mod Sql
pub mod Service
pub mod Metadata
