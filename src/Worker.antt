-- ===== src/Worker.antt =====
-- The job worker (internal/jobworker).
pub mod Retry
pub mod Backoff
pub mod Attempts
pub mod Poll
