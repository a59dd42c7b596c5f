-- ===== src/Invoice.antt =====
-- Invoices.
pub mod Header
pub mod Numbers
pub mod Issue
pub mod Amounts
pub mod Generate
pub mod Billed
pub mod Generated
pub mod Lines
pub mod Exact
pub mod Relined
pub mod Patched
