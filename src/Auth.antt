-- ===== src/Auth.antt =====
-- Sessions, and who may call what.
pub mod Reply
pub mod Sessions
pub mod Handlers
pub mod Success
pub mod Rotation
pub mod Revoked
pub mod Tenant
pub mod Admitted
