-- ===== src/Catalog.antt =====
-- Clients and their projects.
pub mod Clients
pub mod Projects
pub mod Rows
pub mod Kept
pub mod Requests
pub mod Scoped
pub mod Routes
pub mod Listed
