-- ===== src/Store/Rows.antt =====
-- The rows that the repository functions read and write (internal/repo), one record for each table,
-- and the whole database as a record of tables. Identifiers (UUIDs) and times are only compared, so
-- they are numbers; a TEXT column that a CHECK restricts to a few values is an enumeration.
use consulting_revenue_platf.Prelude.{ℕ, Bool, Option, List}
use consulting_revenue_platf.Prelude.Int.{ℤ}
use consulting_revenue_platf.Prelude.Text.{Text}

pub data TimeEntryStatus : Type 0 where
  draft submitted approved invoiced : TimeEntryStatus

pub data TimeEntryAction : Type 0 where
  submit approve reject : TimeEntryAction

-- A row of time_entries with the workflow's columns.
pub record TimeEntry : Type 0 where
  pub id : ℕ
  pub organization_id : ℕ
  pub project_id : ℕ
  pub user_id : ℕ
  pub work_date : ℕ
  pub minutes : ℤ
  pub hourly_rate_minor : ℤ
  pub status : TimeEntryStatus
  pub notes : Option Text
  pub submitted_at : Option ℕ
  pub submitted_by_user_id : Option ℕ
  pub reviewed_at : Option ℕ
  pub approver_user_id : Option ℕ
  pub rejected_reason : Option Text
  pub invoice_id : Option ℕ
  pub updated_at : ℕ

-- A row of time_entry_events.
pub record TimeEntryEvent : Type 0 where
  pub organization_id : ℕ
  pub time_entry_id : ℕ
  pub actor_user_id : ℕ
  pub from_status : TimeEntryStatus
  pub to_status : TimeEntryStatus
  pub action : TimeEntryAction
  pub reason : Option Text

pub data InvoiceStatus : Type 0 where
  draft issued void paid : InvoiceStatus

-- A row of invoices.
pub record Invoice : Type 0 where
  pub id : ℕ
  pub organization_id : ℕ
  pub invoice_number : ℕ
  pub status : InvoiceStatus
  pub currency : Text
  pub subtotal_minor : ℤ
  pub tax_minor : ℤ
  pub total_minor : ℤ
  pub issued_at : Option ℕ
  pub due_at : Option ℕ
  pub updated_at : ℕ

-- A row of invoice_sequences.
pub record InvoiceSequence : Type 0 where
  pub organization_id : ℕ
  pub next_number : ℕ

-- A row of invoice_line_items. The quantity is the NUMERIC(12,2) value, in hundredths.
pub record LineItem : Type 0 where
  pub id : ℕ
  pub invoice_id : ℕ
  pub organization_id : ℕ
  pub source_time_entry_id : Option ℕ
  pub description : Text
  pub quantity_hundredths : ℕ
  pub unit_amount_minor : ℤ
  pub line_total_minor : ℤ

-- A row of payments.
pub record Payment : Type 0 where
  pub id : ℕ
  pub organization_id : ℕ
  pub invoice_id : ℕ
  pub stripe_payment_link_id : Text
  pub stripe_checkout_session_id : Option Text
  pub stripe_payment_intent_id : Option Text
  pub payment_url : Text
  pub amount_minor : ℤ
  pub currency : Text
  pub idempotency_key : Text
  pub refunded_amount_minor : ℤ
  pub last_stripe_failure_code : Option Text
  pub updated_at : ℕ

-- A row of stripe_refund_events.
pub record RefundEvent : Type 0 where
  pub stripe_refund_id : Text
  pub payment_id : ℕ
  pub organization_id : ℕ
  pub amount_minor : ℤ
  pub currency : Text

pub data LedgerEvent : Type 0 where
  invoice_issued payment_captured refund_applied : LedgerEvent

pub data LedgerEntity : Type 0 where
  invoice payment : LedgerEntity

-- A row of ledger_entries, less its metadata.
pub record LedgerEntry : Type 0 where
  pub organization_id : ℕ
  pub event_type : LedgerEvent
  pub entity_type : LedgerEntity
  pub entity_id : ℕ
  pub amount_minor : ℤ
  pub currency : Text

-- A row of audit_logs, less its metadata.
pub record AuditLog : Type 0 where
  pub organization_id : Option ℕ
  pub actor_user_id : Option ℕ
  pub action : Text
  pub entity_type : Text
  pub entity_id : Option ℕ

-- A row of webhook_events whose provider is stripe.
pub record WebhookEvent : Type 0 where
  pub id : ℕ
  pub payload : ℕ
  pub received_at : ℕ
  pub attempt_count : ℕ
  pub processed : Bool
  pub has_error : Bool

-- A row of jobs_dead_letter of the queue stripe_webhooks.
pub record DeadLetter : Type 0 where
  pub webhook_event_id : ℕ
  pub attempt : ℕ

pub data Role : Type 0 where
  owner accountant contractor : Role

pub data MembershipStatus : Type 0 where
  active invited suspended : MembershipStatus

-- A row of memberships.
pub record Membership : Type 0 where
  pub id : ℕ
  pub user_id : ℕ
  pub organization_id : ℕ
  pub role : Role
  pub status : MembershipStatus

-- A row of organizations.
pub record Organization : Type 0 where
  pub id : ℕ
  pub name : Text
  pub deactivated_at : Option ℕ

-- A row of users.
pub record User : Type 0 where
  pub id : ℕ
  pub email : Text
  pub password_hash : Text
  pub full_name : Text

-- A row of auth_sessions.
pub record AuthSession : Type 0 where
  pub id : ℕ
  pub user_id : ℕ
  pub refresh_token_hash : Text
  pub family_id : ℕ
  pub expires_at : ℕ
  pub revoked_at : Option ℕ

-- A row of clients.
pub record Client : Type 0 where
  pub id : ℕ
  pub organization_id : ℕ
  pub name : Text
  pub billing_email : Text
  pub currency_preference : Text
  pub deleted_at : Option ℕ
  pub created_at : ℕ
  pub updated_at : ℕ

pub data BillingMode : Type 0 where
  hourly fixed non_billable : BillingMode

-- A row of projects.
pub record Project : Type 0 where
  pub id : ℕ
  pub organization_id : ℕ
  pub client_id : ℕ
  pub name : Text
  pub billing_mode : BillingMode
  pub default_rate_minor : ℤ
  pub archived : Bool
  pub created_at : ℕ
  pub updated_at : ℕ

-- The database.
pub record Store : Type 0 where
  pub time_entries : List TimeEntry
  pub time_entry_events : List TimeEntryEvent
  pub invoice_sequences : List InvoiceSequence
  pub invoices : List Invoice
  pub line_items : List LineItem
  pub payments : List Payment
  pub refund_events : List RefundEvent
  pub ledger : List LedgerEntry
  pub audit_logs : List AuditLog
  pub webhook_events : List WebhookEvent
  pub dead_letters : List DeadLetter
  pub memberships : List Membership
  pub organizations : List Organization
  pub users : List User
  pub auth_sessions : List AuthSession
  pub clients : List Client
  pub projects : List Project
