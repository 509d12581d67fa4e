-- ===== src/Forms.antt =====
-- src/helix_mcp/services/forms: reading of forms.
pub mod Qualification
pub mod Access
pub mod Cache
