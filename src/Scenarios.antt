-- ===== src/Scenarios.antt =====
-- Concrete databases and runs on them.
use consulting_revenue_platf.Prelude.{[]}
use consulting_revenue_platf.Store.{Store}
pub mod Entries
pub mod Billing
pub mod Stripe
pub mod Members
pub mod Sessions
pub mod Jobs
pub mod Editing
pub mod Requests
pub mod Lines
pub mod Booking
pub mod Closing

abbrev pub empty_store : Store
empty_store = record {
  time_entries = [];
  time_entry_events = [];
  invoice_sequences = [];
  invoices = [];
  line_items = [];
  payments = [];
  refund_events = [];
  ledger = [];
  audit_logs = [];
  webhook_events = [];
  dead_letters = [];
  memberships = [];
  organizations = [];
  users = [];
  auth_sessions = [];
  clients = [];
  projects = [];
}
