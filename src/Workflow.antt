-- ===== src/Workflow.antt =====
-- The use cases of the time-entry workflow: who may do what, over whatever store keeps the entries.
pub mod Domain
pub mod Service
pub mod Repo
mod Endings
pub mod Authorised
pub mod Requests
