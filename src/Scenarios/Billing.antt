-- ===== src/Scenarios/Billing.antt =====
-- A database with an issued invoice, its payment link and two events in the webhook queue; runs on
-- invoices and amounts.
use consulting_revenue_platf.Prelude.{
  if◌then◌else◌, ℕ, ◌+◌, ◌*◌, ◌/◌, ◌≡◌, refl, false, none, [], ◌∷◌, arith,
}
use consulting_revenue_platf.Prelude.Int.{pos, negsuc}
use consulting_revenue_platf.Prelude.Text.{Text, codes, trim_space, to_upper}
use consulting_revenue_platf.Store.{
  InvoiceStatus, Invoice, Payment, WebhookEvent, Store, unsupported_currency, ok, err, Db, Outcome,
}
use consulting_revenue_platf.CsvSafe.{safe_cell, is_risky, safe_cell_safe}
use consulting_revenue_platf.Money.Currency.{normalize_currency, usd}
use consulting_revenue_platf.Money.Amount.{parse_major_to_minor, format_minor_for_display}
use consulting_revenue_platf.Money.RoundTrip.{parse-format}
use consulting_revenue_platf.Invoice.Amounts.{compute_line_total, compute_line_total_exact}
use consulting_revenue_platf.Invoice.Header.{create_draft_invoice, send_invoice}
use consulting_revenue_platf.Invoice.Numbers.{IsNumbered, Numbered, create_draft_invoice-Outcome}
use consulting_revenue_platf.Invoice.Issue.{Sent, NotSent, send_invoice-Outcome}
use consulting_revenue_platf.Scenarios.{empty_store}

abbrev pub sample_invoice : ℕ → ℕ → InvoiceStatus → Invoice
sample_invoice id number status = record {
  id = id;
  organization_id = 1;
  invoice_number = number;
  status = status;
  currency = usd;
  subtotal_minor = pos 9000;
  tax_minor = pos 0;
  total_minor = pos 9000;
  issued_at = none;
  due_at = none;
  updated_at = 0;
}

abbrev sample_payment : Payment
sample_payment = record {
  id = 30;
  organization_id = 1;
  invoice_id = 20;
  stripe_payment_link_id = codes "plink_1";
  stripe_checkout_session_id = none;
  stripe_payment_intent_id = none;
  payment_url = codes "https://pay/1";
  amount_minor = pos 9000;
  currency = usd;
  idempotency_key = codes "k1";
  refunded_amount_minor = pos 0;
  last_stripe_failure_code = none;
  updated_at = 0;
}

abbrev queued : ℕ → ℕ → WebhookEvent
queued id payload = record {
  id = id;
  payload = payload;
  received_at = id;
  attempt_count = 0;
  processed = false;
  has_error = false;
}

abbrev pub billing_store : Store
billing_store = record empty_store {
  invoice_sequences = record { organization_id = 1; next_number = 3 } ∷ [];
  invoices =
      sample_invoice 21 2 InvoiceStatus.draft ∷ sample_invoice 20 1 InvoiceStatus.issued ∷ [];
  payments = sample_payment ∷ [];
  webhook_events = queued 41 2 ∷ queued 40 1 ∷ [];
}

abbrev pub billing_db : Db
billing_db = record { store = billing_store; faults = [] }

billing_store-IsNumbered : IsNumbered billing_store
billing_store-IsNumbered = record {
  below = (omega arith, (omega arith, tt));
  distinct = (refl, (refl, tt));
}

-- Invoices.
create_draft_invoice-Outcome_example :
    Outcome
      (Numbered 1 billing_store)
      (λ e b s.
        (e ≡ unsupported_currency) × (normalize_currency (codes " usd") ≡ err unsupported_currency))
      billing_db
      (create_draft_invoice 22 1 (codes " usd") none 5 billing_db)
create_draft_invoice-Outcome_example =
    create_draft_invoice-Outcome 22 1 (codes " usd") none 5 billing_db billing_store-IsNumbered

send_invoice-Outcome_example :
    Outcome
      (Sent 1 21 5 billing_store)
      (λ e b s'. NotSent 1 21 5 billing_store e)
      billing_db
      (send_invoice 1 21 5 billing_db)
send_invoice-Outcome_example = send_invoice-Outcome 1 21 5 billing_db

-- Amounts and cells.
usd_accepted : normalize_currency (codes "usd ") ≡ ok usd
unfolding normalize_currency trim_space to_upper
usd_accepted = refl

parse-format_example :
    (t : Text) × (format_minor_for_display (codes "usd ") (negsuc 1204) ≡ ok t)
    × (parse_major_to_minor (codes "usd ") t ≡ ok (negsuc 1204))
parse-format_example =
    parse-format (codes "usd ") usd (negsuc 1204) usd_accepted (omega arith) (λ h. ground arith)

safe_cell_safe_example :
    (is_risky (safe_cell (codes "=1+2")) ≡ false)
    × (safe_cell (codes "=1+2")
        ≡ (if is_risky (codes "=1+2") then 39 ∷ codes "=1+2" else codes "=1+2"))
    × (safe_cell (safe_cell (codes "=1+2")) ≡ safe_cell (codes "=1+2"))
safe_cell_safe_example = safe_cell_safe (codes "=1+2")

compute_line_total_exact_example :
    compute_line_total (pos 150) (pos 9999) ≡ ok (pos ((150 * 9999 + 50) / 100))
compute_line_total_exact_example = compute_line_total_exact 150 9999 (omega arith)
