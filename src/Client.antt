-- ===== src/Client.antt =====
-- src/helix_mcp/clients/arapi/client.py: what the client of the bridge makes of the bridge's answers,
-- and what it sends.
pub mod Json
pub mod Forms
pub mod Fields
pub mod Decimal
pub mod Sql
pub mod Entries
pub mod Post
pub mod Encode
pub mod Calls
pub mod Answers
