-- ===== src/Webhook/HandlerRun.antt =====
-- What handling an event does to the tables, by the event's type and object (stripe_refund_dispatch.go
-- and handlers.go of internal/webhookworker).
use consulting_revenue_platf.Prelude.{
  ℕ, ◌≡◌, refl, ◌⊎◌, inl, inr, Bool, true, false, not, Option, none, some, [], if◌then◌else◌, find,
  arith,
}
use mathlib.Core.Path.{sym, subst}
use consulting_revenue_platf.Prelude.Text.{Text, codes, trim_space}
use consulting_revenue_platf.Store.{
  Payment, Store, Result, ok, err, Tx, ◌>>=◌, pure, lift, Ensures, Ensures-query, Ensures-found,
  Ensures-or_throw, Ensures-throw, Ensures-throw_if, Ensures-pure, Ensures-if, Ensures-lifted,
  Ensures-bind, Ensures-weaken,
}
use consulting_revenue_platf.Payment.Rows.{is_blank_text}
use consulting_revenue_platf.Payment.RefundRun.{
  Untouched, Unrefunded-Untouched, Done, apply_stripe_refund-Ensures,
}
use consulting_revenue_platf.Payment.PaidRun.{
  PaidDone, Uncaptured-Untouched, reconcile_payment_paid-Ensures,
}
use consulting_revenue_platf.Payment.FailureRun.{FailureDone, record_payment_failure-Ensures}
use consulting_revenue_platf.Payment.Refund.{trimmed}
use consulting_revenue_platf.Payment.Reconcile.{
  PaidInput, has_link, payment_of_link, resolve_parsed, resolve_invoice_id,
}
use consulting_revenue_platf.Webhook.Event.{
  EventType, refund_failed, refund_created, refund_updated, payment_failed, checkout_completed,
  ref_id, intent_succeeded, other_event, RefundObject, FailedIntent, Decoder, Dispatch, paid_none,
  paid_apply, paid_skip, parse_session, parse_intent, parse_paid_event, parse_paid_input,
  equal_fold,
}
use consulting_revenue_platf.Webhook.Handler.{
  refund_input, code_or_blank, refund_event, refund_by_type, try_apply_refund, failure_event,
  failure_by_type, try_record_failure, apply_paid, handle_paid, handle_other, handle_stripe_webhook,
}

-- The invoice that a received payment is for: the one that its metadata name, which must be the one of
-- its link if it has a link, or else the one of its link.
abbrev pub Resolved : (Text → Option ℕ) → PaidInput → ℕ → Store → Type 0
Resolved parse_uuid i invoice s =
    let m = trim_space i.metadata_invoice_id in
    let link = trim_space i.stripe_payment_link_id in
    let of_link =
      (p : Payment) × (find (has_link link) s.payments ≡ some p) × (p.invoice_id ≡ invoice) in
    ((is_blank_text m ≡ false)
      × (parse_uuid m ≡ some invoice)
      × ((is_blank_text link ≡ true) ⊎ of_link))
    ⊎ ((is_blank_text m ≡ true) × of_link)

-- A refund object: one that did not succeed, or that names no intent, does nothing; any other is
-- applied, with the ids of the object.
abbrev pub RefundHandled : Option RefundObject → ℕ → Store → Store → Type 0
RefundHandled none now s s' = ⊥
RefundHandled (some r) now s s' =
    ((equal_fold (trim_space r.status) (codes "succeeded") ≡ false) × (s' ≡ s))
    ⊎ ((is_blank_text (trim_space (ref_id r.payment_intent)) ≡ true) × (s' ≡ s))
    ⊎ ((equal_fold (trim_space r.status) (codes "succeeded") ≡ true)
        × Done
            (trimmed (record {
              stripe_refund_id = trim_space r.id;
              stripe_payment_intent_id = trim_space (ref_id r.payment_intent);
              amount_minor = r.amount;
              currency = r.currency;
            }))
            now s s')

-- A failed intent: its payment gets the failure's code.
abbrev pub FailureHandled : Option FailedIntent → ℕ → Store → Store → Type 0
FailureHandled none now s s' = ⊥
FailureHandled (some p) now s s' =
    (code : Text) × (((p.error_code ≡ none) × (code ≡ [])) ⊎ (p.error_code ≡ some code))
    × FailureDone p.id (trim_space code) now s s'

-- What was parsed of a received payment: it is for an invoice, or it is skipped.
abbrev pub PaidHandled :
    (Text → Option ℕ) → Result (PaidInput × Dispatch) → ℕ → Store → Store → Type 0
PaidHandled parse_uuid (err e) now s s' = ⊥
PaidHandled parse_uuid (ok (i, paid_apply)) now s s' =
    (invoice : ℕ) × Resolved parse_uuid i invoice s × PaidDone i now invoice s s'
PaidHandled parse_uuid (ok (i, paid_skip)) now s s' = s' ≡ s
PaidHandled parse_uuid (ok (i, paid_none)) now s s' = s' ≡ s

-- What a handled event does; an event that is not decoded is not handled.
abbrev pub Handled :
    Decoder → (Text → Option ℕ) → Option (EventType × ℕ) → ℕ → Store → Store → Type 0
Handled dec parse_uuid none now s s' = ⊥
Handled dec parse_uuid (some (refund_created, raw)) now s s' =
    RefundHandled (dec.refund raw) now s s'
Handled dec parse_uuid (some (refund_updated, raw)) now s s' =
    RefundHandled (dec.refund raw) now s s'
Handled dec parse_uuid (some (payment_failed, raw)) now s s' =
    FailureHandled (dec.failed_intent raw) now s s'
Handled dec parse_uuid (some (checkout_completed, raw)) now s s' =
    PaidHandled parse_uuid (parse_session (dec.session raw)) now s s'
Handled dec parse_uuid (some (intent_succeeded, raw)) now s s' =
    PaidHandled parse_uuid (parse_intent (dec.intent raw)) now s s'
Handled dec parse_uuid (some (refund_failed, raw)) now s s' = s' ≡ s
Handled dec parse_uuid (some (other_event, raw)) now s s' = s' ≡ s

module _ (parse_uuid : Text → Option ℕ) (now : ℕ) (s : Store) where
  module _ (i : PaidInput) where
    abbrev Found : ℕ → Store → Type 0
    Found invoice s' = (s' ≡ s) × Resolved parse_uuid i invoice s

    resolve_parsed-Ensures :
        (invoice : ℕ)
        → not (is_blank_text (trim_space i.metadata_invoice_id)) ≡ true
        → parse_uuid (trim_space i.metadata_invoice_id) ≡ some invoice
        → Ensures
            (resolve_parsed invoice (trim_space i.stripe_payment_link_id))
            s
            Found
            (Untouched s)
    unfolding resolve_parsed payment_of_link
    resolve_parsed-Ensures invoice m e =
        Ensures-if (is_blank_text (trim_space i.stripe_payment_link_id)) (pure invoice) _
          (λ t. Ensures-pure invoice (refl, inl (ground (arith, m), e, inl t)))
          (λ t. Ensures-bind _ _ (
            Ensures-query _ _ (
              Ensures-or_throw _ _ (λ h. inr refl)
                (λ p h.
                  Ensures-throw_if _ _ _ (λ u. inr refl)
                    (λ u.
                      Ensures-pure _
                        (refl, inl (ground (arith, m), e, inr (p, h, ground (arith, u)))))))))

    resolve_invoice_id-Ensures :
        Ensures
          (resolve_invoice_id parse_uuid i.metadata_invoice_id i.stripe_payment_link_id)
          s
          Found
          (Untouched s)
    unfolding resolve_invoice_id payment_of_link
    resolve_invoice_id-Ensures =
        Ensures-if (not (is_blank_text (trim_space i.metadata_invoice_id))) _ _
          (λ t. Ensures-found _ _ _ (λ h. inr refl) (λ id h. resolve_parsed-Ensures id t h))
          (λ t.
            Ensures-if (not (is_blank_text (trim_space i.stripe_payment_link_id))) _ _
              (λ u. Ensures-bind _ _ (
                Ensures-query _ _ (
                  Ensures-or_throw _ _ (λ h. inr refl)
                    (λ p h. Ensures-pure _ (refl, inr (ground (arith, t), (p, h, refl)))))))
              (λ u. Ensures-throw _ (inr refl)))

  -- On the same tables.
  at_same :
      {B : Type 0} (m : Tx B) (Q : B → Store → Type 0) (s' : Store)
      → Ensures m s Q (Untouched s)
      → s' ≡ s
      → Ensures m s' Q (Untouched s)
  at_same m Q s' h e = subst (λ x. Ensures m x Q (Untouched s)) (sym e) h

  apply_paid-Ensures :
      (p : PaidInput × Dispatch)
      → Ensures
          (apply_paid parse_uuid now p)
          s
          (λ u. PaidHandled parse_uuid (ok p) now s)
          (Untouched s)
  apply_paid-Ensures (i, paid_apply) = Ensures-bind _ _ (
      Ensures-weaken _
        (λ id s' e.
          at_same _ _ s'
            (Ensures-weaken _ (λ v t d. (id, e.1, d)) (Uncaptured-Untouched i now id s)
              (reconcile_payment_paid-Ensures i now id s))
            e.0)
        (λ e b s' w. w) (resolve_invoice_id-Ensures i))
  apply_paid-Ensures (i, paid_skip) = Ensures-pure _ refl
  apply_paid-Ensures (i, paid_none) = Ensures-pure _ refl

  paid-Ensures :
      (r : Result (PaidInput × Dispatch))
      → Ensures
          (lift r >>= apply_paid parse_uuid now)
          s
          (λ u. PaidHandled parse_uuid r now s)
          (Untouched s)
  paid-Ensures r =
      Ensures-lifted _ _ (λ e h. inr refl)
        (λ p h.
          subst
            (λ x.
              Ensures (apply_paid parse_uuid now p) s (λ u. PaidHandled parse_uuid x now s)
                (Untouched s))
            (sym h) (apply_paid-Ensures p))

  -- Before what follows an event that is not handled here.
  module _ (rest : Tx (Unit {0})) where
    abbrev ends : Bool → Tx (Unit {0})
    ends handled = if handled then pure tt else rest

    refund_event-Ensures :
        (o : Option RefundObject)
        → Ensures (refund_event o now >>= ends) s (λ u. RefundHandled o now s) (Untouched s)
    refund_event-Ensures none = Ensures-bind _ _ (Ensures-throw _ (inr refl))
    refund_event-Ensures (some r) = Ensures-bind _ _ (
        Ensures-if (not (equal_fold (trim_space r.status) (codes "succeeded"))) _ _
          (λ t. Ensures-pure true (Ensures-pure tt (inl (ground (arith, t), refl))))
          (λ t.
            Ensures-if (is_blank_text (trim_space (ref_id r.payment_intent))) _ _
              (λ u. Ensures-pure true (Ensures-pure tt (inr (inl (u, refl)))))
              (λ u. Ensures-bind _ _ (
                Ensures-weaken _
                  (λ v s' d. Ensures-pure true (Ensures-pure tt (inr (inr (ground (arith, t), d)))))
                  (Unrefunded-Untouched (trimmed (refund_input r)) now s)
                  (apply_stripe_refund-Ensures (refund_input r) now s)))))

    error_code :
        (o : Option Text) → ((o ≡ none) × (code_or_blank o ≡ [])) ⊎ (o ≡ some (code_or_blank o))
    error_code none = inl (refl, refl)
    error_code (some c) = inr refl

    failure_event-Ensures :
        (o : Option FailedIntent)
        → Ensures (failure_event o now >>= ends) s (λ u. FailureHandled o now s) (Untouched s)
    failure_event-Ensures none = Ensures-bind _ _ (Ensures-throw _ (inr refl))
    failure_event-Ensures (some p) = Ensures-bind _ _ (
        Ensures-bind _ _ (
          Ensures-weaken _
            (λ v s' d.
              Ensures-pure true
                (Ensures-pure tt (code_or_blank p.error_code, error_code p.error_code, d)))
            (λ e b s' w. w)
            (record_payment_failure-Ensures p.id (code_or_blank p.error_code) now s)))

  module _ (dec : Decoder) where
    abbrev others : Option (EventType × ℕ) → Tx (Unit {0})
    others o = failure_by_type dec o now >>= λ handled.
        if handled then pure tt else (lift (parse_paid_event dec o) >>= apply_paid parse_uuid now)

    abbrev dispatched : Option (EventType × ℕ) → Tx (Unit {0})
    dispatched o = refund_by_type dec o now >>= λ handled. if handled then pure tt else others o

    dispatched-Ensures :
        (o : Option (EventType × ℕ))
        → Ensures (dispatched o) s (λ u. Handled dec parse_uuid o now s) (Untouched s)
    dispatched-Ensures none = Ensures-bind _ _ (Ensures-throw _ (inr refl))
    dispatched-Ensures (some (refund_failed, raw)) =
        Ensures-bind _ _ (Ensures-pure true (Ensures-pure tt refl))
    dispatched-Ensures (some (refund_created, raw)) =
        refund_event-Ensures (others (some (refund_created, raw))) (dec.refund raw)
    dispatched-Ensures (some (refund_updated, raw)) =
        refund_event-Ensures (others (some (refund_updated, raw))) (dec.refund raw)
    dispatched-Ensures (some (payment_failed, raw)) = Ensures-bind _ _ (
        Ensures-pure false (
          failure_event-Ensures
            (lift (parse_paid_event dec (some (payment_failed, raw))) >>= apply_paid parse_uuid now)
            (dec.failed_intent raw)))
    dispatched-Ensures (some (checkout_completed, raw)) = Ensures-bind _ _ (
        Ensures-pure false
          (Ensures-bind _ _ (Ensures-pure false (paid-Ensures (parse_session (dec.session raw))))))
    dispatched-Ensures (some (intent_succeeded, raw)) = Ensures-bind _ _ (
        Ensures-pure false
          (Ensures-bind _ _ (Ensures-pure false (paid-Ensures (parse_intent (dec.intent raw))))))
    dispatched-Ensures (some (other_event, raw)) = Ensures-bind _ _ (
        Ensures-pure false (
          Ensures-bind _ _
            (Ensures-pure false (paid-Ensures (parse_paid_event dec (some (other_event, raw)))))))

-- `handleStripeWebhook`, with any statements failed. Where it succeeds the event was decoded and decides
-- what is done: the refund of a refund object that succeeded and names an intent, the capture for the
-- invoice that a received payment resolves to, the code of a failed intent, each as the repository does
-- it, or nothing for every other event. Where it returns an error, a statement failed, or the tables
-- are as they were.
pub handle_stripe_webhook-Ensures :
    (now : ℕ) (s : Store) (dec : Decoder) (parse_uuid : Text → Option ℕ) (payload : ℕ)
    → Ensures
        (handle_stripe_webhook dec parse_uuid payload now)
        s
        (λ u. Handled dec parse_uuid (dec.event payload) now s)
        (Untouched s)
unfolding handle_stripe_webhook try_apply_refund handle_other try_record_failure handle_paid
    parse_paid_input
handle_stripe_webhook-Ensures now s dec parse_uuid payload =
    dispatched-Ensures parse_uuid now s dec (dec.event payload)
