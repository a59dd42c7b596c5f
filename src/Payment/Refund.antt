-- ===== src/Payment/Refund.antt =====
-- `ApplyStripeRefund` of internal/repo/stripe_refund.go.
use consulting_revenue_platf.Prelude.{
  ℕ, Bool, true, false, ◌&&◌, ◌||◌, not, Option, none, some, List, [], ◌∷◌, ◌==◌, if◌then◌else◌,
  update_where,
}
use consulting_revenue_platf.Prelude.Int.{ℤ, pos, ltb_ℤ}
use consulting_revenue_platf.Prelude.Text.{Text, text_eq, trim_space}
use consulting_revenue_platf.Int64.{add64, sub64, neg64}
use consulting_revenue_platf.Store.{
  InvoiceStatus, Invoice, Payment, RefundEvent, LedgerEvent, LedgerEntity, Store, sql_failed,
  payment_not_found, refund_input_missing, refund_exceeds_remaining, reconcile_currency_mismatch,
  Result, ok, err, Tx, ◌>>=◌, ◌>>◌, stmt, exec, pure, lift, throw_if,
}
use consulting_revenue_platf.Money.Currency.{normalize_currency}
use consulting_revenue_platf.Ledger.{insert_ledger_entry_tx}
use consulting_revenue_platf.Invoice.Header.{
  is_invoice_in, same_invoice_status, get_invoice_by_id_for_update,
}
use consulting_revenue_platf.Payment.Rows.{
  is_blank_text, get_payment_for_update, lookup_by_intent, intent_matches,
}

-- `StripeRefundInput`.
pub record RefundInput : Type 0 where
  pub stripe_refund_id : Text
  pub stripe_payment_intent_id : Text
  pub amount_minor : ℤ
  pub currency : Text

abbrev pub trimmed : RefundInput → RefundInput
trimmed i = record i {
  stripe_refund_id = trim_space i.stripe_refund_id;
  stripe_payment_intent_id = trim_space i.stripe_payment_intent_id;
}

abbrev pub is_missing : RefundInput → Bool
is_missing i =
    is_blank_text i.stripe_refund_id
    || is_blank_text i.stripe_payment_intent_id
    || not (ltb_ℤ (pos 0) i.amount_minor)

abbrev pub refund_known : Text → List RefundEvent → Bool
refund_known id [] = false
refund_known id (r ∷ rs) = text_eq r.stripe_refund_id id || refund_known id rs

abbrev pub refund_row : RefundInput → Payment → RefundEvent
refund_row i p = record {
  stripe_refund_id = i.stripe_refund_id;
  payment_id = p.id;
  organization_id = p.organization_id;
  amount_minor = i.amount_minor;
  currency = p.currency;
}

-- `INSERT ... ON CONFLICT (stripe_refund_id) DO NOTHING RETURNING id`: whether a row came back.
abbrev pub insert_refund_event : RefundEvent → Store → Result (Bool × Store)
insert_refund_event r s =
    if refund_known r.stripe_refund_id s.refund_events
    then ok (false, s)
    else ok (true, record s { refund_events = r ∷ s.refund_events })

-- The CHECKs `refunded_amount_minor >= 0` and `refunded_amount_minor <= amount_minor`, on the rows
-- that the `UPDATE` reaches.
abbrev pub refund_allowed : ℕ → ℤ → List Payment → Bool
refund_allowed id refunded [] = true
refund_allowed id refunded (p ∷ ps) =
    (not (p.id == id) || not (ltb_ℤ refunded (pos 0)) && not (ltb_ℤ p.amount_minor refunded))
    && refund_allowed id refunded ps

abbrev pub set_refunded : ℤ → ℕ → Payment → Payment
set_refunded refunded now p = record p { refunded_amount_minor = refunded; updated_at = now }

abbrev pub update_refunded : ℕ → ℤ → ℕ → Store → Result (Unit {0} × Store)
update_refunded id refunded now s =
    if refund_allowed id refunded s.payments
    then ok (
      tt,
      record s {
        payments =
            update_where (λ (p : Payment). p.id == id) (set_refunded refunded now) s.payments;
      },
    )
    else err sql_failed

abbrev pub set_invoice_status : InvoiceStatus → ℕ → Invoice → Invoice
set_invoice_status status now i = record i { status = status; updated_at = now }

-- `UPDATE invoices SET status = 'issued' WHERE ... AND status = 'paid'`.
abbrev pub reopen : ℕ → ℕ → ℕ → Store → Store
reopen org id now s = record s {
  invoices =
      update_where (is_invoice_in InvoiceStatus.paid org id)
        (set_invoice_status InvoiceStatus.issued now) s.invoices;
}

-- After the refund event went in: the ledger, the payment's total, and a fully refunded invoice.
unfoldable pub book_refund : RefundInput → Invoice → Payment → ℕ → Tx (Unit {0})
book_refund i inv pay now = do
  insert_ledger_entry_tx pay.organization_id LedgerEvent.refund_applied LedgerEntity.payment pay.id
      (neg64 i.amount_minor) pay.currency
  let refunded = add64 pay.refunded_amount_minor i.amount_minor
  stmt (update_refunded pay.id refunded now)
  if same_invoice_status inv.status InvoiceStatus.paid && not (ltb_ℤ refunded pay.amount_minor)
      then exec (reopen inv.organization_id inv.id now)
      else pure tt

-- With the locked invoice and payment.
unfoldable pub refund_locked : RefundInput → Invoice → Payment → ℕ → Tx (Unit {0})
refund_locked i inv pay now = do
  cur ← lift (normalize_currency i.currency)
  throw_if (not (text_eq cur pay.currency)) reconcile_currency_mismatch
  throw_if (ltb_ℤ (sub64 pay.amount_minor pay.refunded_amount_minor) i.amount_minor)
      refund_exceeds_remaining
  inserted ← stmt (insert_refund_event (refund_row i pay))
  if inserted then book_refund i inv pay now else pure tt

-- With the row that the intent was looked up by.
unfoldable pub refund_payment : RefundInput → Payment → ℕ → Tx (Unit {0})
refund_payment i pay0 now = do
  inv ← get_invoice_by_id_for_update pay0.invoice_id
  pay ← get_payment_for_update payment_not_found inv.organization_id inv.id
  if intent_matches pay i.stripe_payment_intent_id then refund_locked i inv pay now else pure tt

abbrev pub refund_found : RefundInput → ℕ → Option Payment → Tx (Unit {0})
refund_found i now none = pure tt
refund_found i now (some pay0) =
    if intent_matches pay0 i.stripe_payment_intent_id then refund_payment i pay0 now else pure tt

-- `ApplyStripeRefund`.
unfoldable pub apply_stripe_refund : RefundInput → ℕ → Tx (Unit {0})
apply_stripe_refund input now = do
  let i = trimmed input
  throw_if (is_missing i) refund_input_missing
  row ← lookup_by_intent i.stripe_payment_intent_id
  refund_found i now row
