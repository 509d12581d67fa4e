-- ===== src/Writes.antt =====
-- src/helix_mcp/services/writes: plans for creating and updating entries, applied at most once.
pub mod Models
pub mod Store
pub mod Policy
pub mod Bridge
pub mod Rows
pub mod Persistent
pub mod Service
