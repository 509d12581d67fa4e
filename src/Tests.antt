-- ===== src/Tests.antt =====
-- Concrete inputs on which the theorems are applied.
mod Writes
mod Service
mod Others
mod Forms
mod Persistent
mod Queries
mod Stored
mod Client
mod Bridged
mod Metadata
