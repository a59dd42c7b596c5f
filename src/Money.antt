-- ===== src/Money.antt =====
-- Money as text: currencies, amounts parsed and printed (internal/repo/money.go).
pub mod Decimal
pub mod Currency
pub mod Amount
mod Digits
pub mod RoundTrip
mod Tests
