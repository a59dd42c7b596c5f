-- ===== src/Payment.antt =====
-- Payments: the rows of payment links, and what Stripe's events do to them.
pub mod Rows
pub mod Reconcile
pub mod Refund
pub mod Intent
pub mod RefundRun
pub mod PaidRun
pub mod Failure
pub mod FailureRun
pub mod Balance
pub mod BalanceKept
pub mod Once
