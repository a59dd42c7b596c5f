-- ===== src/Payment/Once.antt =====
-- Redelivered events: a refund is booked once, and a payment is captured once.
use consulting_revenue_platf.Prelude.{
  ℕ, ◌≡◌, ◌≢◌, inl, inr, true, ◌==◌, some, find, some_inj, sym, ap, ◌∙◌, arith,
}
use consulting_revenue_platf.Prelude.Text.{trim_space}
use consulting_revenue_platf.Store.{InvoiceStatus, Invoice, Store, Ensures, Ensures-weaken}
use consulting_revenue_platf.Payment.Refund.{
  RefundInput, trimmed, refund_known, apply_stripe_refund,
}
use consulting_revenue_platf.Payment.RefundRun.{
  Done, Untouched, Unrefunded-Untouched, apply_stripe_refund-Ensures,
}
use consulting_revenue_platf.Payment.Reconcile.{PaidInput, reconcile_payment_paid}
use consulting_revenue_platf.Payment.PaidRun.{
  PaidDone, Uncaptured-Untouched, reconcile_payment_paid-Ensures,
}

known_unchanged :
    (i : RefundInput) (now : ℕ) (s s' : Store)
    → refund_known i.stripe_refund_id s.refund_events ≡ true
    → Done i now s s'
    → s' ≡ s
known_unchanged i now s s' k (inl h) = h.0
known_unchanged i now s s' k (inr (inv, pay, po, paid, cur, room, new, allowed, r)) =
    absurd (ground arith)

-- A refund whose id is in the table is not booked again, whatever else the event says and with any
-- statements failed: the run changes nothing, and an error comes from a failed statement or before
-- any write.
pub apply_stripe_refund_once :
    (input : RefundInput) (now : ℕ) (s : Store)
    → refund_known (trim_space input.stripe_refund_id) s.refund_events ≡ true
    → Ensures (apply_stripe_refund input now) s (λ u s'. s' ≡ s) (Untouched s)
apply_stripe_refund_once input now s k =
    Ensures-weaken _ (λ u s' d. known_unchanged (trimmed input) now s s' k d)
      (Unrefunded-Untouched (trimmed input) now s) (apply_stripe_refund-Ensures input now s)

paid-ne-issued : InvoiceStatus.paid ≢ InvoiceStatus.issued
paid-ne-issued h = cc

paid_unchanged :
    (i : PaidInput) (now invoice : ℕ) (s s' : Store) (inv : Invoice)
    → find (λ (x : Invoice). x.id == invoice) s.invoices ≡ some inv
    → inv.status ≡ InvoiceStatus.paid
    → PaidDone i now invoice s s'
    → s' ≡ s
paid_unchanged i now invoice s s' inv f p (inl (inv', f', p', h)) = h
paid_unchanged i now invoice s s' inv f p (inr (inv', pay, f', issued, fp, link, cur, amount, e)) =
    let same : inv ≡ inv' = some_inj (sym f ∙ f') in
    absurd (paid-ne-issued (sym p ∙ ap (λ (x : Invoice). x.status) same ∙ issued))

-- An invoice that is paid is not captured again, whatever the event says and with any statements
-- failed: the run changes nothing, and an error comes from a failed statement or before any write.
pub reconcile_payment_paid_once :
    (i : PaidInput) (now invoice : ℕ) (s : Store) (inv : Invoice)
    → find (λ (x : Invoice). x.id == invoice) s.invoices ≡ some inv
    → inv.status ≡ InvoiceStatus.paid
    → Ensures (reconcile_payment_paid i invoice now) s (λ u s'. s' ≡ s) (Untouched s)
reconcile_payment_paid_once i now invoice s inv f p =
    Ensures-weaken _ (λ u s' d. paid_unchanged i now invoice s s' inv f p d)
      (Uncaptured-Untouched i now invoice s) (reconcile_payment_paid-Ensures i now invoice s)
