-- ===== src/Webhook/Event.antt =====
-- What the worker reads out of an event (internal/webhookworker/stripe_parse.go and the objects of
-- stripe_refund_dispatch.go). Decoding JSON is not modelled: a decoder is a parameter.
use consulting_revenue_platf.Prelude.{
  ℕ, ◌+◌, Bool, true, false, ◌&&◌, not, Option, none, some, List, [], ◌∷◌, ◌==◌, leb, if◌then◌else◌,
}
use consulting_revenue_platf.Prelude.Int.{ℤ, pos, ltb_ℤ}
use consulting_revenue_platf.Prelude.Text.{Text, codes, text_eq}
use consulting_revenue_platf.Store.{
  malformed_payload, no_charge_amount, reconcile_cannot_resolve, Result, ok, err,
}
use consulting_revenue_platf.Payment.Rows.{is_blank_text}
use consulting_revenue_platf.Payment.Reconcile.{PaidInput}

-- The event types that the worker tells apart.
pub data EventType : Type 0 where
  refund_failed refund_created refund_updated payment_failed : EventType
  checkout_completed intent_succeeded other_event : EventType

-- A field that holds an id, or an object with an id.
pub data JsonRef : Type 0 where
  null_ref : JsonRef
  text_ref object_ref : Text → JsonRef

-- `stripeJSONRefID`.
abbrev pub ref_id : JsonRef → Text
ref_id null_ref = []
ref_id (text_ref s) = s
ref_id (object_ref id) = id

-- `refundDTO`.
pub record RefundObject : Type 0 where
  pub id : Text
  pub amount : ℤ
  pub currency : Text
  pub status : Text
  pub payment_intent : JsonRef

-- `paymentIntentFailedDTO`; `none` where `last_payment_error` is missing.
pub record FailedIntent : Type 0 where
  pub id : Text
  pub error_code : Option Text

-- `checkoutSessionDTO`.
pub record CheckoutSession : Type 0 where
  pub id : Text
  pub mode : Text
  pub metadata : List (Text × Text)
  pub amount_total : ℤ
  pub currency : Text
  pub payment_intent : JsonRef
  pub payment_link : JsonRef

-- `paymentIntentDTO`.
pub record PaymentIntent : Type 0 where
  pub id : Text
  pub metadata : List (Text × Text)
  pub amount : ℤ
  pub amount_received : ℤ
  pub currency : Text

-- `json.Unmarshal` at the types that the worker asks for; `none` is its error. Payloads, and the
-- `data.object` of an event, are named by numbers.
pub record Decoder : Type 0 where
  pub event : ℕ → Option (EventType × ℕ)
  pub refund : ℕ → Option RefundObject
  pub failed_intent : ℕ → Option FailedIntent
  pub session : ℕ → Option CheckoutSession
  pub intent : ℕ → Option PaymentIntent

-- `metadataInvoiceID`.
abbrev pub metadata_invoice_id : List (Text × Text) → Text
metadata_invoice_id [] = []
metadata_invoice_id ((k, v) ∷ m) =
    if text_eq k (codes "invoice_id") then v else metadata_invoice_id m

-- `stripePaidDispatch`.
pub data Dispatch : Type 0 where
  paid_none paid_apply paid_skip : Dispatch

abbrev empty_input : PaidInput
empty_input = record {
  metadata_invoice_id = [];
  stripe_payment_link_id = [];
  stripe_checkout_session_id = [];
  stripe_payment_intent_id = [];
  amount_minor = pos 0;
  currency = [];
}

-- `stripePaidMetadata`.
abbrev pub paid_metadata : Text → Text → Dispatch
paid_metadata meta link = if is_blank_text meta && is_blank_text link then paid_none else paid_apply

abbrev pub parse_session : Option CheckoutSession → Result (PaidInput × Dispatch)
parse_session none = err malformed_payload
parse_session (some s) =
    let meta = metadata_invoice_id s.metadata in
    let link = ref_id s.payment_link in
    if not (text_eq s.mode (codes "payment"))
    then ok (empty_input, paid_skip)
    else if not (ltb_ℤ (pos 0) s.amount_total)
    then err no_charge_amount
    else if is_blank_text meta && is_blank_text link
    then err reconcile_cannot_resolve
    else ok (
      record {
        metadata_invoice_id = meta;
        stripe_payment_link_id = link;
        stripe_checkout_session_id = s.id;
        stripe_payment_intent_id = ref_id s.payment_intent;
        amount_minor = s.amount_total;
        currency = s.currency;
      },
      paid_metadata meta link,
    )

abbrev pub charged : PaymentIntent → ℤ
charged p = if ltb_ℤ (pos 0) p.amount_received then p.amount_received else p.amount

abbrev pub parse_intent : Option PaymentIntent → Result (PaidInput × Dispatch)
parse_intent none = err malformed_payload
parse_intent (some p) =
    let meta = metadata_invoice_id p.metadata in
    if not (ltb_ℤ (pos 0) (charged p))
    then err no_charge_amount
    else if is_blank_text meta
    then err reconcile_cannot_resolve
    else ok (
      record {
        metadata_invoice_id = meta;
        stripe_payment_link_id = [];
        stripe_checkout_session_id = [];
        stripe_payment_intent_id = p.id;
        amount_minor = charged p;
        currency = p.currency;
      },
      paid_metadata meta [],
    )

-- The `switch` of `parseStripePaidReconcileInput` on a decoded event.
abbrev pub parse_paid_event : Decoder → Option (EventType × ℕ) → Result (PaidInput × Dispatch)
parse_paid_event dec none = err malformed_payload
parse_paid_event dec (some (checkout_completed, raw)) = parse_session (dec.session raw)
parse_paid_event dec (some (intent_succeeded, raw)) = parse_intent (dec.intent raw)
parse_paid_event dec (some (refund_failed, raw)) = ok (empty_input, paid_skip)
parse_paid_event dec (some (refund_created, raw)) = ok (empty_input, paid_skip)
parse_paid_event dec (some (refund_updated, raw)) = ok (empty_input, paid_skip)
parse_paid_event dec (some (payment_failed, raw)) = ok (empty_input, paid_skip)
parse_paid_event dec (some (other_event, raw)) = ok (empty_input, paid_skip)

-- `parseStripePaidReconcileInput`.
unfoldable pub parse_paid_input : Decoder → ℕ → Result (PaidInput × Dispatch)
parse_paid_input dec payload = parse_paid_event dec (dec.event payload)

-- `unicode.SimpleFold` on what folds to ASCII.
abbrev fold_rune : ℕ → ℕ
fold_rune c =
    if leb b'A' c && leb c b'Z'
    then c + 32
    else if c == 0x17f
    then b's'
    else if c == 0x212a
    then b'k'
    else c

-- `strings.EqualFold`, with an ASCII text on one side.
unfoldable pub equal_fold : Text → Text → Bool
equal_fold [] [] = true
equal_fold [] (d ∷ t) = false
equal_fold (c ∷ s) [] = false
equal_fold (c ∷ s) (d ∷ t) = fold_rune c == fold_rune d && equal_fold s t
