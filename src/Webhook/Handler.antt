-- ===== src/Webhook/Handler.antt =====
-- `handleStripeWebhook` of internal/webhookworker/handlers.go, with the two dispatchers of
-- stripe_refund_dispatch.go.
use consulting_revenue_platf.Prelude.{
  ℕ, Bool, true, false, not, Option, none, some, [], if◌then◌else◌,
}
use consulting_revenue_platf.Prelude.Text.{Text, codes, trim_space}
use consulting_revenue_platf.Store.{malformed_payload, Tx, ◌>>=◌, ◌>>◌, pure, throw, lift}
use consulting_revenue_platf.Payment.Rows.{is_blank_text}
use consulting_revenue_platf.Payment.Reconcile.{
  PaidInput, resolve_invoice_id, reconcile_payment_paid,
}
use consulting_revenue_platf.Payment.Refund.{RefundInput, apply_stripe_refund}
use consulting_revenue_platf.Payment.Failure.{record_payment_failure}
use consulting_revenue_platf.Webhook.Event.{
  EventType, refund_failed, refund_created, refund_updated, payment_failed, checkout_completed,
  intent_succeeded, other_event, ref_id, RefundObject, FailedIntent, Decoder, Dispatch, paid_none,
  paid_apply, paid_skip, parse_paid_input, equal_fold,
}

abbrev pub refund_input : RefundObject → RefundInput
refund_input r = record {
  stripe_refund_id = trim_space r.id;
  stripe_payment_intent_id = trim_space (ref_id r.payment_intent);
  amount_minor = r.amount;
  currency = r.currency;
}

-- A refund object of an event; the result is whether the event is handled.
abbrev pub refund_event : Option RefundObject → ℕ → Tx Bool
refund_event none now = throw malformed_payload
refund_event (some r) now =
    if not (equal_fold (trim_space r.status) (codes "succeeded"))
    then pure true
    else if is_blank_text (trim_space (ref_id r.payment_intent))
    then pure true
    else (apply_stripe_refund (refund_input r) now >> pure true)

abbrev pub refund_by_type : Decoder → Option (EventType × ℕ) → ℕ → Tx Bool
refund_by_type dec none now = throw malformed_payload
refund_by_type dec (some (refund_failed, raw)) now = pure true
refund_by_type dec (some (refund_created, raw)) now = refund_event (dec.refund raw) now
refund_by_type dec (some (refund_updated, raw)) now = refund_event (dec.refund raw) now
refund_by_type dec (some (payment_failed, raw)) now = pure false
refund_by_type dec (some (checkout_completed, raw)) now = pure false
refund_by_type dec (some (intent_succeeded, raw)) now = pure false
refund_by_type dec (some (other_event, raw)) now = pure false

-- `tryApplyStripeRefund`.
unfoldable pub try_apply_refund : Decoder → ℕ → ℕ → Tx Bool
try_apply_refund dec payload now = refund_by_type dec (dec.event payload) now

abbrev pub code_or_blank : Option Text → Text
code_or_blank none = []
code_or_blank (some c) = c

abbrev pub failure_event : Option FailedIntent → ℕ → Tx Bool
failure_event none now = throw malformed_payload
failure_event (some p) now =
    record_payment_failure p.id (code_or_blank p.error_code) now >> pure true

abbrev pub failure_by_type : Decoder → Option (EventType × ℕ) → ℕ → Tx Bool
failure_by_type dec none now = throw malformed_payload
failure_by_type dec (some (payment_failed, raw)) now = failure_event (dec.failed_intent raw) now
failure_by_type dec (some (refund_failed, raw)) now = pure false
failure_by_type dec (some (refund_created, raw)) now = pure false
failure_by_type dec (some (refund_updated, raw)) now = pure false
failure_by_type dec (some (checkout_completed, raw)) now = pure false
failure_by_type dec (some (intent_succeeded, raw)) now = pure false
failure_by_type dec (some (other_event, raw)) now = pure false

-- `tryRecordStripePaymentFailure`.
unfoldable pub try_record_failure : Decoder → ℕ → ℕ → Tx Bool
try_record_failure dec payload now = failure_by_type dec (dec.event payload) now

-- The `switch` on what was parsed.
abbrev pub apply_paid : (Text → Option ℕ) → ℕ → PaidInput × Dispatch → Tx (Unit {0})
apply_paid parse_uuid now (i, paid_apply) =
    resolve_invoice_id parse_uuid i.metadata_invoice_id i.stripe_payment_link_id >>= λ id.
    reconcile_payment_paid i id now
apply_paid parse_uuid now (i, paid_skip) = pure tt
apply_paid parse_uuid now (i, paid_none) = pure tt

unfoldable pub handle_paid : Decoder → (Text → Option ℕ) → ℕ → ℕ → Tx (Unit {0})
handle_paid dec parse_uuid payload now =
    lift (parse_paid_input dec payload) >>= apply_paid parse_uuid now

unfoldable pub handle_other : Decoder → (Text → Option ℕ) → ℕ → ℕ → Tx (Unit {0})
handle_other dec parse_uuid payload now = do
  handled ← try_record_failure dec payload now
  if handled then pure tt else handle_paid dec parse_uuid payload now

-- `handleStripeWebhook`.
unfoldable pub handle_stripe_webhook : Decoder → (Text → Option ℕ) → ℕ → ℕ → Tx (Unit {0})
handle_stripe_webhook dec parse_uuid payload now = do
  handled ← try_apply_refund dec payload now
  if handled then pure tt else handle_other dec parse_uuid payload now
