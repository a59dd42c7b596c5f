-- ===== src/Audit.antt =====
-- The audit log and the access log: what is kept out of them.
pub mod Metadata
pub mod Redacted
pub mod Query
