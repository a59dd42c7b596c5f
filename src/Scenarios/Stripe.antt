-- ===== src/Scenarios/Stripe.antt =====
-- Runs on payments and the webhook queue: an event that the invoice was paid, and one that the payment
-- was refunded in full.
use consulting_revenue_platf.Prelude.{
  ℕ, ◌≡◌, refl, Bool, false, Option, none, some, [], ◌∷◌, ◌==◌, if◌then◌else◌, arith, true,
}
use consulting_revenue_platf.Prelude.Int.{pos, negsuc}
use consulting_revenue_platf.Prelude.Text.{Text, codes, trim_space, to_upper, text_eq}
use consulting_revenue_platf.Store.{InvoiceStatus, Store, err, Db, Ensures, Outcome}
use consulting_revenue_platf.Money.Currency.{normalize_currency, usd}
use consulting_revenue_platf.Payment.Refund.{
  RefundInput, trimmed, refund_known, apply_stripe_refund,
}
use consulting_revenue_platf.Payment.RefundRun.{
  Done, Untouched, Unrefunded, apply_stripe_refund-Ensures,
}
use consulting_revenue_platf.Payment.Reconcile.{PaidInput, reconcile_payment_paid}
use consulting_revenue_platf.Payment.PaidRun.{PaidDone, Uncaptured, reconcile_payment_paid-Ensures}
use consulting_revenue_platf.Payment.Once.{apply_stripe_refund_once, reconcile_payment_paid_once}
use consulting_revenue_platf.Payment.Balance.{IsBalanced}
use consulting_revenue_platf.Webhook.Event.{refund_created, checkout_completed, text_ref, Decoder}
use consulting_revenue_platf.Webhook.Handler.{handle_stripe_webhook}
use consulting_revenue_platf.Webhook.HandlerRun.{Handled, handle_stripe_webhook-Ensures}
use consulting_revenue_platf.Webhook.Process.{process_one}
use consulting_revenue_platf.Webhook.ProcessRun.{Processed, NotProcessed, process_one-Outcome}
use consulting_revenue_platf.Webhook.Rounds.{process_all, process_all-IsBalanced}
use consulting_revenue_platf.Int64.{add64, sub64, neg64}
use consulting_revenue_platf.Store.{
  LedgerEvent, LedgerEntity, err, refund_exceeds_remaining, run_in_tx, tx_steps,
}
use consulting_revenue_platf.Ledger.{ledger_row, insert_ledger_entry_tx}
use consulting_revenue_platf.Invoice.Header.{get_invoice_by_id_for_update}
use consulting_revenue_platf.Payment.Rows.{
  get_payment_for_update, lookup_by_intent, intent_matches, btrim, btrim_left,
}
use consulting_revenue_platf.Payment.Refund.{refund_payment, refund_locked, book_refund}
use consulting_revenue_platf.Payment.Reconcile.{
  resolve_invoice_id, resolve_parsed, payment_of_link, reconcile_issued, capture,
}
use consulting_revenue_platf.Webhook.Event.{parse_paid_input, equal_fold}
use consulting_revenue_platf.Webhook.Handler.{
  handle_other, handle_paid, try_apply_refund, try_record_failure,
}
use consulting_revenue_platf.Webhook.Queue.{
  lock_next_pending, oldest, mark_processed, record_failure, bury,
}
use consulting_revenue_platf.Webhook.Process.{process_tx}
use consulting_revenue_platf.Scenarios.Billing.{sample_invoice, billing_store, billing_db}

billing_store-IsBalanced : IsBalanced billing_store
billing_store-IsBalanced = record {
  rows = (
    record {
      refunded = 0;
      amount = 9000;
      refunded_eq = refl;
      amount_eq = refl;
      within = omega arith;
      bounded = omega arith;
      of_events = refl;
      of_ledger = refl;
    },
    tt,
  );
}

-- Payments.
abbrev paid_input : PaidInput
paid_input = record {
  metadata_invoice_id = codes "20";
  stripe_payment_link_id = codes "plink_1";
  stripe_checkout_session_id = codes "cs_1";
  stripe_payment_intent_id = codes "pi_1";
  amount_minor = pos 9000;
  currency = codes "usd";
}

reconcile_payment_paid-Ensures_example :
    Ensures
      (reconcile_payment_paid paid_input 20 6)
      billing_store
      (λ u. PaidDone paid_input 6 20 billing_store)
      (Uncaptured paid_input 6 20 billing_store)
reconcile_payment_paid-Ensures_example =
    reconcile_payment_paid-Ensures paid_input 6 20 billing_store

abbrev refund_of_all : RefundInput
refund_of_all = record {
  stripe_refund_id = codes "re_1";
  stripe_payment_intent_id = codes "pi_1";
  amount_minor = pos 9000;
  currency = codes "usd";
}

apply_stripe_refund-Ensures_example :
    Ensures
      (apply_stripe_refund refund_of_all 6)
      billing_store
      (λ u. Done (trimmed refund_of_all) 6 billing_store)
      (Unrefunded (trimmed refund_of_all) 6 billing_store)
apply_stripe_refund-Ensures_example = apply_stripe_refund-Ensures refund_of_all 6 billing_store

-- The queue: payload 1 says that the invoice was paid, payload 2 that all was refunded.
abbrev pub sample_decoder : Decoder
sample_decoder = record {
  event = λ p.
      if p == 1
      then some (checkout_completed, 1)
      else if p == 2
      then some (refund_created, 2)
      else none;
  refund = λ p.
      if p == 2
      then some (record {
        id = codes "re_1";
        amount = pos 9000;
        currency = codes "usd";
        status = codes "succeeded";
        payment_intent = text_ref (codes "pi_1");
      })
      else none;
  failed_intent = λ p. none;
  session = λ p.
      if p == 1
      then some (record {
        id = codes "cs_1";
        mode = codes "payment";
        metadata = (codes "invoice_id", codes "20") ∷ [];
        amount_total = pos 9000;
        currency = codes "usd";
        payment_intent = text_ref (codes "pi_1");
        payment_link = text_ref (codes "plink_1");
      })
      else none;
  intent = λ p. none;
}

abbrev pub sample_uuid : Text → Option ℕ
sample_uuid t = if text_eq t (codes "20") then some 20 else none

abbrev pub unlocked : ℕ → Bool
unlocked id = false

handle_stripe_webhook-Ensures_example :
    Ensures
      (handle_stripe_webhook sample_decoder sample_uuid 1 6)
      billing_store
      (λ u. Handled sample_decoder sample_uuid (some (checkout_completed, 1)) 6 billing_store)
      (Untouched billing_store)
handle_stripe_webhook-Ensures_example =
    handle_stripe_webhook-Ensures 6 billing_store sample_decoder sample_uuid 1

process_one-Outcome_example :
    Outcome
      (Processed sample_decoder sample_uuid unlocked 5 6 billing_store)
      (λ e b s'. NotProcessed sample_decoder sample_uuid unlocked 5 6 billing_store e)
      billing_db
      (process_one sample_decoder sample_uuid unlocked 5 6 billing_db)
process_one-Outcome_example = process_one-Outcome sample_decoder sample_uuid unlocked 5 6 billing_db

process_all-IsBalanced_example :
    IsBalanced
      (process_all sample_decoder sample_uuid 5
        ((unlocked, 6) ∷ (unlocked, 7) ∷ [])
        billing_db).store
process_all-IsBalanced_example =
    process_all-IsBalanced sample_decoder sample_uuid 5 ((unlocked, 6) ∷ (unlocked, 7) ∷ [])
      billing_db billing_store-IsBalanced

-- The same refund and the same payment again.
abbrev refunded_store_example : Store
refunded_store_example = record billing_store {
  refund_events =
      record {
        stripe_refund_id = codes "re_1";
        payment_id = 30;
        organization_id = 1;
        amount_minor = pos 9000;
        currency = usd;
      }
      ∷ [];
  invoices = sample_invoice 20 1 InvoiceStatus.paid ∷ [];
}

trimmed_known :
    refund_known (trim_space refund_of_all.stripe_refund_id) refunded_store_example.refund_events
    ≡ true
unfolding trim_space
trimmed_known = refl

apply_stripe_refund_once_example :
    Ensures
      (apply_stripe_refund refund_of_all 8)
      refunded_store_example
      (λ u s'. s' ≡ refunded_store_example)
      (Untouched refunded_store_example)
apply_stripe_refund_once_example =
    apply_stripe_refund_once refund_of_all 8 refunded_store_example trimmed_known

reconcile_payment_paid_once_example :
    Ensures
      (reconcile_payment_paid paid_input 20 8)
      refunded_store_example
      (λ u s'. s' ≡ refunded_store_example)
      (Untouched refunded_store_example)
reconcile_payment_paid_once_example =
    reconcile_payment_paid_once paid_input 8 20 refunded_store_example
      (sample_invoice 20 1 InvoiceStatus.paid) refl refl

-- What a run of the worker computes with.
webhook_steps : Unit {0}
unfolding process_all process_one process_tx lock_next_pending oldest mark_processed record_failure
    bury handle_stripe_webhook handle_other handle_paid try_apply_refund try_record_failure
    parse_paid_input equal_fold resolve_invoice_id resolve_parsed payment_of_link
    reconcile_payment_paid reconcile_issued capture insert_ledger_entry_tx
    get_invoice_by_id_for_update get_payment_for_update lookup_by_intent intent_matches btrim
    btrim_left apply_stripe_refund refund_payment refund_locked book_refund normalize_currency
    trim_space to_upper add64 sub64 neg64 tx_steps
webhook_steps = tt

abbrev after_both : Db
after_both =
    process_all sample_decoder sample_uuid 5 ((unlocked, 6) ∷ (unlocked, 7) ∷ []) billing_db

paid_then_refunded :
    (after_both.store.ledger
      ≡ ledger_row 1 LedgerEvent.refund_applied LedgerEntity.payment 30 (negsuc 8999) usd
        ∷ ledger_row 1 LedgerEvent.payment_captured LedgerEntity.payment 30 (pos 9000) usd
        ∷ [])
    × (after_both.store.dead_letters ≡ [])
unfolding webhook_steps
paid_then_refunded = (refl, refl)

-- The same refund delivered once more is refused, as nothing is left to refund.
redelivery_refused :
    (run_in_tx (apply_stripe_refund refund_of_all 9) after_both).0 ≡ err refund_exceeds_remaining
unfolding webhook_steps
redelivery_refused = refl
