-- ===== src/Payment/Reconcile.antt =====
-- A payment that Stripe reports as received (internal/repo/stripe_reconcile.go): the invoice it is
-- for, and what it does to the tables.
use consulting_revenue_platf.Prelude.{
  ℕ, Bool, true, false, ◌&&◌, not, Option, none, some, ◌∷◌, ◌==◌, if◌then◌else◌, find, update_where,
}
use consulting_revenue_platf.Prelude.Int.{ℤ, eqb_ℤ}
use consulting_revenue_platf.Prelude.Text.{Text, codes, text_eq, trim_space}
use consulting_revenue_platf.Store.{
  InvoiceStatus, Invoice, Payment, LedgerEvent, LedgerEntity, Store, reconcile_not_issued,
  reconcile_no_payment, reconcile_link_mismatch, reconcile_amount_mismatch,
  reconcile_currency_mismatch, reconcile_metadata_mismatch, reconcile_cannot_resolve,
  bad_invoice_id, Result, ok, Tx, ◌>>=◌, ◌>>◌, stmt, query, exec, pure, lift, or_throw, throw,
  throw_if,
}
use consulting_revenue_platf.Money.Currency.{normalize_currency}
use consulting_revenue_platf.Ledger.{insert_ledger_entry_tx}
use consulting_revenue_platf.Invoice.Header.{
  is_invoice_in, same_invoice_status, get_invoice_by_id_for_update,
}
use consulting_revenue_platf.Payment.Rows.{is_blank_text, btrim, get_payment_for_update}

-- `StripePaidReconcileInput`, less the invoice id that `ResolveStripePaidInvoiceID` finds.
pub record PaidInput : Type 0 where
  pub metadata_invoice_id : Text
  pub stripe_payment_link_id : Text
  pub stripe_checkout_session_id : Text
  pub stripe_payment_intent_id : Text
  pub amount_minor : ℤ
  pub currency : Text

-- `WHERE stripe_payment_link_id = $1`.
abbrev pub has_link : Text → Payment → Bool
has_link link p = text_eq p.stripe_payment_link_id link

unfoldable pub payment_of_link : Text → Tx Payment
payment_of_link link = do
  row ← query (λ s. find (has_link link) s.payments)
  or_throw row reconcile_no_payment

-- With an invoice id from the metadata.
unfoldable pub resolve_parsed : ℕ → Text → Tx ℕ
resolve_parsed id link =
    if is_blank_text link
    then pure id
    else payment_of_link link >>= λ p.
        throw_if (not (p.invoice_id == id)) reconcile_metadata_mismatch >> pure id

-- `ResolveStripePaidInvoiceID`; `uuid.Parse` is a parameter.
unfoldable pub resolve_invoice_id : (Text → Option ℕ) → Text → Text → Tx ℕ
resolve_invoice_id parse_uuid metadata link0 =
    let m = trim_space metadata in
    let link = trim_space link0 in
    if not (is_blank_text m)
    then (or_throw (parse_uuid m) bad_invoice_id >>= λ id. resolve_parsed id link)
    else if not (is_blank_text link)
    then (payment_of_link link >>= λ p. pure p.invoice_id)
    else throw reconcile_cannot_resolve

abbrev pub mark_paid : ℕ → Invoice → Invoice
mark_paid now i = record i { status = InvoiceStatus.paid; updated_at = now }

abbrev some_row : Option Invoice → Bool
some_row none = false
some_row (some i) = true

-- `UPDATE invoices SET status = 'paid' WHERE ... AND status = 'issued'`: whether a row was reached.
abbrev pub update_paid : ℕ → ℕ → ℕ → Store → Result (Bool × Store)
update_paid org id now s = ok (
  some_row (find (is_invoice_in InvoiceStatus.issued org id) s.invoices),
  record s {
    invoices = update_where (is_invoice_in InvoiceStatus.issued org id) (mark_paid now) s.invoices;
  },
)

-- `NULLIF(BTRIM(x), '')`.
abbrev pub null_if_blank : Text → Option Text
null_if_blank x = if is_blank_text (btrim x) then none else some (btrim x)

-- `COALESCE(NULLIF(BTRIM(COALESCE(old, '')), ''), NULLIF(BTRIM($1), ''))`.
abbrev pub coalesce_id : Option Text → Text → Option Text
coalesce_id none new = null_if_blank new
coalesce_id (some old) new =
    if is_blank_text (btrim old) then null_if_blank new else some (btrim old)

abbrev pub set_stripe_ids : Text → Text → ℕ → Payment → Payment
set_stripe_ids session intent now p = record p {
  stripe_checkout_session_id = coalesce_id p.stripe_checkout_session_id (trim_space session);
  stripe_payment_intent_id = coalesce_id p.stripe_payment_intent_id (trim_space intent);
  updated_at = now;
}

abbrev pub update_stripe_ids : ℕ → Text → Text → ℕ → Store → Store
update_stripe_ids id session intent now s = record s {
  payments =
      update_where (λ (p : Payment). p.id == id) (set_stripe_ids session intent now) s.payments;
}

-- The row that `InsertAuditLogTx` writes.
abbrev pub log_paid : ℕ → ℕ → Store → Store
log_paid org id s = record s {
  audit_logs =
      record {
        organization_id = some org;
        actor_user_id = none;
        action = codes "invoice.paid";
        entity_type = codes "invoice";
        entity_id = some id;
      }
      ∷ s.audit_logs;
}

-- The writes after the checks.
unfoldable pub capture : PaidInput → Invoice → Payment → ℕ → Tx (Unit {0})
capture i inv pay now = do
  reached ← stmt (update_paid inv.organization_id inv.id now)
  throw_if (not reached) reconcile_not_issued
  exec (update_stripe_ids pay.id i.stripe_checkout_session_id i.stripe_payment_intent_id now)
  insert_ledger_entry_tx inv.organization_id LedgerEvent.payment_captured LedgerEntity.payment
      pay.id pay.amount_minor inv.currency
  exec (log_paid inv.organization_id inv.id)

-- With the locked invoice, which is issued.
unfoldable pub reconcile_issued : PaidInput → Invoice → ℕ → Tx (Unit {0})
reconcile_issued i inv now = do
  pay ← get_payment_for_update reconcile_no_payment inv.organization_id inv.id
  throw_if
      (not (is_blank_text i.stripe_payment_link_id)
        && not (text_eq i.stripe_payment_link_id pay.stripe_payment_link_id))
      reconcile_link_mismatch
  cur ← lift (normalize_currency i.currency)
  throw_if (not (text_eq cur inv.currency)) reconcile_currency_mismatch
  throw_if (not (eqb_ℤ i.amount_minor pay.amount_minor)) reconcile_amount_mismatch
  capture i inv pay now

abbrev pub reconcile_found : PaidInput → Invoice → ℕ → Tx (Unit {0})
reconcile_found i inv now =
    if same_invoice_status inv.status InvoiceStatus.paid
    then pure tt
    else if same_invoice_status inv.status InvoiceStatus.issued
    then reconcile_issued i inv now
    else throw reconcile_not_issued

-- `ReconcileStripePaymentPaid`, for the invoice of the input.
unfoldable pub reconcile_payment_paid : PaidInput → ℕ → ℕ → Tx (Unit {0})
reconcile_payment_paid i invoice now = do
  inv ← get_invoice_by_id_for_update invoice
  reconcile_found i inv now
