-- ===== src/Lib.antt =====
-- The consulting revenue platform API: consultants log hours, an owner or an accountant approves them,
-- approved hours are invoiced, invoices are paid through Stripe payment links, and Stripe's webhook
-- events capture payments and book refunds.
--
-- The database is a record of tables (Store.Rows, one record for a row). A transaction body is a
-- function on an open connection (Store.Transaction), written with do blocks in the order of the code:
-- it sees the tables, a list that says which of the coming driver calls fail, and whether a statement
-- has failed. After a failed statement all others are refused, as PostgreSQL does. `RunInTx`
-- (internal/db/tx.go) is `run_in_tx`; a statement on the pool is `auto`. Store.Logic and Store.Attempt
-- hold one proof rule for each construct. Rows locked FOR UPDATE are read and written by one
-- transaction at a time, so a transaction is one step on the tables. A handler that makes its statements
-- on the pool is a function on a `Pool` (Store.Pool), which says what other connections commit before
-- each of them, and keeps the tables before and after each; Store.Rely has the rules for what holds of
-- each statement, whatever the others do, and Store.Alone those for a run with no other connection.
--
-- The parts, and the code that they model:
--   Prelude: lists, tests and integers over the native numbers, and texts as lists of code points.
--   Int64: Go's int64 with its wrap-around.
--   Money: internal/repo/money.go.
--   Ledger: internal/repo/ledger.go.
--   Invoice: Header is internal/repo/invoices.go, Generate is internal/repo/invoice_generation.go, Lines
--     is internal/repo/invoice_line_items.go, and Amounts the arithmetic of both; Numbers, Issue, Billed,
--     Generated, Exact, Relined and Patched say what they do.
--   Payment: rows (internal/repo/payments.go), capture (internal/repo/stripe_reconcile.go), refunds and
--     failures (internal/repo/stripe_refund.go). Refund, Reconcile and Failure hold the code, RefundRun,
--     PaidRun and FailureRun what it does, Intent which payment an event is for, and Balance what holds of
--     the refunds of a payment.
--   Webhook: the worker (internal/webhookworker) and its queue
--     (internal/repo/webhook_events_worker.go). Event parses, Handler dispatches, Queue locks, marks and
--     counts, Process is one round, and Loop the loop of internal/webhookworker/run.go; HandlerRun,
--     ProcessRun and Rounds say what they do.
--   Worker: the retries (Retry) and the poll loop (Poll) of internal/jobworker.
--   TimeEntry: Transition is internal/repo/time_entry_workflow.go, Page the listings and Edit the other
--     operations of internal/repo/time_entries.go, and Routes internal/httpapi/handlers_time_entries.go;
--     Lifecycle, Log, Pages, Edited, Bounded, Scoped and PatchRoute say what they do.
--   Workflow: their validation (internal/domain/workflow.go) and the service over its store interface
--     (internal/usecase/time_entry_workflow.go), which the repository fills.
--   Membership: internal/repo/memberships.go and the policy of internal/authz/policy.go.
--   Auth: Sessions is internal/repo/session.go, Handlers internal/httpapi/auth_session.go, Tenant the
--     middleware of internal/httpapi/middleware_tenant.go and Reply what a handler answers; Rotation,
--     Revoked and Admitted say what they do.
--   Catalog: Clients is internal/repo/clients.go, Projects internal/repo/projects.go, and Routes
--     internal/httpapi/handlers_clients.go; Rows, Kept, Requests, Scoped and Listed
--     say what they do.
--   Organization: internal/repo/organization.go; Closed says what it does to the routes.
--   Audit: redaction of metadata (internal/repo/audit.go) and of URLs (internal/logredact).
--   CsvSafe: internal/csvsafe/csvsafe.go.
--   Scenarios: concrete databases, runs and examples.
--
-- Choices. Ids and times are numbers, as the code only compares them; the ids and the times that the
-- database gives are arguments. A TEXT column with a CHECK on its values is an enumeration. A violated
-- UNIQUE or CHECK is an error of its statement. JSON decoding and `uuid.Parse` are parameters. Text is
-- valid UTF-8. The texts of errors are not kept, apart from the messages of the service. Printing a
-- number runs on fuel of 20 digits, which every int64 fits. The retries run on the number of attempts
-- left, and the poll loop on the choices of its `select`.
--
-- Not modelled: panics; a server without a database; the metadata of the audit log, and the rows
-- that handlers other than the session handlers write to it; registration; the other HTTP handlers,
-- reports, exports and retention. Configuration, cryptography, PDF and the Stripe client are input
-- and output.
pub mod Prelude
pub mod Int64
pub mod Store
pub mod Money
pub mod Ledger
pub mod CsvSafe
pub mod Invoice
pub mod Payment
pub mod Membership
pub mod TimeEntry
pub mod Audit
pub mod Auth
pub mod Catalog
pub mod Organization
pub mod Webhook
pub mod Worker
pub mod Workflow
pub mod Scenarios
