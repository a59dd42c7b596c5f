-- ===== src/Webhook/Rounds.antt =====
-- Any series of the worker's rounds, by any number of workers, keeps the refunds in balance.
use consulting_revenue_platf.Prelude.{ℕ, ◌≡◌, inl, inr, Bool, Option, none, some, List, [], ◌∷◌}
use mathlib.Core.Path.{sym, subst}
use consulting_revenue_platf.Prelude.Text.{Text}
use consulting_revenue_platf.Store.{WebhookEvent, Store, Result, ok, err, Db, Outcome}
use consulting_revenue_platf.Payment.Balance.{IsBalanced}
use consulting_revenue_platf.Payment.BalanceKept.{
  Refunded-IsBalanced, Captured-IsBalanced, FailureNoted-IsBalanced,
}
use consulting_revenue_platf.Payment.Reconcile.{PaidInput}
use consulting_revenue_platf.Webhook.Event.{
  Decoder, EventType, refund_failed, refund_created, refund_updated, payment_failed,
  checkout_completed, intent_succeeded, other_event, RefundObject, FailedIntent, Dispatch,
  paid_none, paid_apply, paid_skip, parse_session, parse_intent,
}
use consulting_revenue_platf.Webhook.HandlerRun.{
  RefundHandled, FailureHandled, PaidHandled, Handled,
}
use consulting_revenue_platf.Webhook.Process.{
  WebhookOutcome, success, retry, terminal, max_of, process_one,
}
use consulting_revenue_platf.Webhook.ProcessRun.{
  Round, Processed, NotProcessed, process_one-Outcome,
}

module _ (now : ℕ) (s s' : Store) (h : IsBalanced s) where
  unchanged-IsBalanced : s' ≡ s → IsBalanced s'
  unchanged-IsBalanced e = subst IsBalanced (sym e) h

  refund-IsBalanced : (o : Option RefundObject) → RefundHandled o now s s' → IsBalanced s'
  refund-IsBalanced none r = absurd r
  refund-IsBalanced (some o) (inl r) = unchanged-IsBalanced r.1
  refund-IsBalanced (some o) (inr (inl r)) = unchanged-IsBalanced r.1
  refund-IsBalanced (some o) (inr (inr (t, inl r))) = unchanged-IsBalanced r.0
  refund-IsBalanced (some o) (inr (inr (t, inr r))) = Refunded-IsBalanced _ now s s' r h

  failure-IsBalanced : (o : Option FailedIntent) → FailureHandled o now s s' → IsBalanced s'
  failure-IsBalanced none r = absurd r
  failure-IsBalanced (some o) (code, c, inl r) = unchanged-IsBalanced r.0
  failure-IsBalanced (some o) (code, c, inr r) = FailureNoted-IsBalanced _ _ now s s' r h

  module _ (parse_uuid : Text → Option ℕ) where
    paid-IsBalanced :
        (r : Result (PaidInput × Dispatch)) → PaidHandled parse_uuid r now s s' → IsBalanced s'
    paid-IsBalanced (err e) p = absurd p
    paid-IsBalanced (ok (i, paid_skip)) p = unchanged-IsBalanced p
    paid-IsBalanced (ok (i, paid_none)) p = unchanged-IsBalanced p
    paid-IsBalanced (ok (i, paid_apply)) (invoice, r, inl (inv, f, st, e)) = unchanged-IsBalanced e
    paid-IsBalanced (ok (i, paid_apply)) (invoice, r, inr c) =
        Captured-IsBalanced i now invoice s s' c h

    Handled-IsBalanced :
        (dec : Decoder) (o : Option (EventType × ℕ))
        → Handled dec parse_uuid o now s s'
        → IsBalanced s'
    Handled-IsBalanced dec none p = absurd p
    Handled-IsBalanced dec (some (refund_created, raw)) p = refund-IsBalanced (dec.refund raw) p
    Handled-IsBalanced dec (some (refund_updated, raw)) p = refund-IsBalanced (dec.refund raw) p
    Handled-IsBalanced dec (some (payment_failed, raw)) p =
        failure-IsBalanced (dec.failed_intent raw) p
    Handled-IsBalanced dec (some (checkout_completed, raw)) p =
        paid-IsBalanced (parse_session (dec.session raw)) p
    Handled-IsBalanced dec (some (intent_succeeded, raw)) p =
        paid-IsBalanced (parse_intent (dec.intent raw)) p
    Handled-IsBalanced dec (some (refund_failed, raw)) p = unchanged-IsBalanced p
    Handled-IsBalanced dec (some (other_event, raw)) p = unchanged-IsBalanced p

Round-IsBalanced :
    (dec : Decoder) (parse_uuid : Text → Option ℕ) (max_attempts now : ℕ) (row : WebhookEvent)
    (s : Store) (w : WebhookOutcome) (s' : Store)
    → Round dec parse_uuid max_attempts now row s w s'
    → IsBalanced s
    → IsBalanced s'
Round-IsBalanced dec parse_uuid max_attempts now row s success s' (t, f, e) h =
    let done : IsBalanced t =
      Handled-IsBalanced now s t h parse_uuid dec (dec.event row.payload) f in
    subst IsBalanced (sym e) (record { rows = done.rows })
Round-IsBalanced dec parse_uuid max_attempts now row s retry s' (refused, (found, f, l, e)) h =
    subst IsBalanced (sym e) (record { rows = h.rows })
Round-IsBalanced dec parse_uuid max_attempts now row s terminal s' (refused, (found, f, l, e)) h =
    subst IsBalanced (sym e) (record { rows = h.rows })

module _ (dec : Decoder) (parse_uuid : Text → Option ℕ) (configured : ℕ) where
  -- The rounds of workers, each with the rows that others hold locked, and its time.
  unfoldable pub process_all : List ((ℕ → Bool) × ℕ) → Db → Db
  process_all [] d = d
  process_all ((is_locked, now) ∷ turns) d =
      process_all turns (process_one dec parse_uuid is_locked configured now d).1

  round-IsBalanced :
      (is_locked : ℕ → Bool) (now : ℕ) (d : Db) (r : Result WebhookOutcome × Db)
      → Outcome
          (Processed dec parse_uuid is_locked (max_of configured) now d.store)
          (λ e b s'. NotProcessed dec parse_uuid is_locked (max_of configured) now d.store e)
          d
          r
      → IsBalanced d.store
      → IsBalanced r.1.store
  round-IsBalanced is_locked now d (ok w, d') (row, f, p) h =
      Round-IsBalanced dec parse_uuid (max_of configured) now row d.store w d'.store p h
  round-IsBalanced is_locked now d (err e, d') o h = subst IsBalanced (sym o.0) h

  -- After any rounds of workers on any events, with any calls of the driver failed: what a payment has
  -- refunded is the sum of its refund events and of its refund entries in the ledger, and is not more
  -- than its amount.
  pub process_all-IsBalanced :
      (turns : List ((ℕ → Bool) × ℕ)) (d : Db)
      → IsBalanced d.store
      → IsBalanced (process_all turns d).store
  unfolding process_all
  process_all-IsBalanced [] d h = h
  process_all-IsBalanced ((is_locked, now) ∷ turns) d h =
      process_all-IsBalanced turns (process_one dec parse_uuid is_locked configured now d).1 (
        round-IsBalanced is_locked now d (process_one dec parse_uuid is_locked configured now d)
          (process_one-Outcome dec parse_uuid is_locked configured now d) h)
