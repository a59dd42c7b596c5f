-- ===== src/TimeEntry.antt =====
-- Time entries: their workflow in the repository, and what holds of it.
pub mod Transition
pub mod Lifecycle
pub mod Log
pub mod Page
pub mod Sorted
pub mod Pages
pub mod Edit
pub mod Edited
pub mod Bounded
pub mod Routes
pub mod Scoped
pub mod PatchRoute
