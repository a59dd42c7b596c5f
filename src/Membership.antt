-- ===== src/Membership.antt =====
-- Memberships of organizations: roles, and the protection of the last owner.
pub mod Roles
pub mod Policy
pub mod Store
pub mod Owners
pub mod Requests
