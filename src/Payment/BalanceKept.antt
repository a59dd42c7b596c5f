-- ===== src/Payment/BalanceKept.antt =====
-- Refunds, captures and failures keep the balance of Balance.
use consulting_revenue_platf.Prelude.{
  ℕ, ◌+◌, ◌-◌, ◌≤◌, ◌<◌, ◌≡◌, refl, Bool, true, false, List, ◌==◌, if◌then◌else◌, All, All-find,
  All-update_where, arith,
}
use mathlib.Core.Path.{sym, subst, ◌∙◌}
use consulting_revenue_platf.Prelude.Int.{ℤ, pos, negsuc, neg_part, ltb_ℤ}
use consulting_revenue_platf.Prelude.Text.{Text}
use consulting_revenue_platf.Int64.{two63, add64, sub64, neg64, add64_pos, sub64_pos, neg64_pos}
use consulting_revenue_platf.Store.{Invoice, Payment, LedgerEvent, LedgerEntity, LedgerEntry, Store}
use consulting_revenue_platf.Ledger.{ledger_row}
use consulting_revenue_platf.Payment.Rows.{is_payment_of}
use consulting_revenue_platf.Payment.Refund.{RefundInput, refund_row, refund_allowed}
use consulting_revenue_platf.Payment.RefundRun.{
  with_event, with_ledger, with_total, with_open, is_settled, Refunded,
}
use consulting_revenue_platf.Payment.Reconcile.{PaidInput}
use consulting_revenue_platf.Payment.PaidRun.{Captured, captured_store, charged}
use consulting_revenue_platf.Payment.Failure.{null_string}
use consulting_revenue_platf.Payment.FailureRun.{FailureNoted}
use consulting_revenue_platf.Payment.Balance.{ledger_refunds, IsBalancedRow, IsBalanced, rows_kept}

-- A positive amount that is not more than what is left.
fitting :
    (z : ℤ) (r a : ℕ)
    → ltb_ℤ (pos 0) z ≡ true
    → ltb_ℤ (pos (a - r)) z ≡ false
    → r ≤ a
    → (n : ℕ) × (z ≡ pos n) × (r + n ≤ a)
fitting (pos n) r a h k le = (n, refl, ground arith)
fitting (negsuc n) r a h k le = absurd (ground arith)

either_store :
    (b : Bool) (t u : Store) → IsBalanced t → IsBalanced u → IsBalanced (if b then u else t)
either_store true t u h k = k
either_store false t u h k = h

module _ (i : RefundInput) (now : ℕ) (inv : Invoice) (pay : Payment) (c : Text) (s : Store) where
  written :
      (n : ℕ) (b : IsBalancedRow s.refund_events s.ledger pay)
      → i.amount_minor ≡ pos n
      → b.refunded + n ≤ b.amount
      → All (IsBalancedRow s.refund_events s.ledger) s.payments
      → refund_allowed pay.id (add64 pay.refunded_amount_minor i.amount_minor) s.payments ≡ true
      → IsBalanced (with_total i now pay (with_ledger i now pay c (with_event i now pay s)))
  written n b en le rows allowed =
      let bound : b.amount < two63 = b.bounded in
      let total : add64 pay.refunded_amount_minor i.amount_minor ≡ pos (b.refunded + n) =
        rw (b.refunded_eq, en) (add64_pos b.refunded n (omega arith)) in
      let negated : neg_part (neg64 i.amount_minor) ≡ n = rw en (neg64_pos n (omega arith)) in
      record {
        rows = rw total (
            rows_kept (refund_row i pay)
              (ledger_row pay.organization_id LedgerEvent.refund_applied LedgerEntity.payment pay.id
                (neg64 i.amount_minor) c)
              s.refund_events s.ledger pay.id n b.refunded now refl en refl refl negated b.of_events
              s.payments rows (rw total at allowed));
      }

-- A refund keeps the balance.
pub Refunded-IsBalanced :
    (i : RefundInput) (now : ℕ) (s s' : Store) → Refunded i now s s' → IsBalanced s → IsBalanced s'
Refunded-IsBalanced i now s s' (inv, pay, po, paid, cur, room, new, allowed, (c, ec, e)) h =
    let (first, l, m, fi, fp, n) = paid in
    let b : IsBalancedRow s.refund_events s.ledger pay =
      All-find _ (is_payment_of inv.organization_id inv.id) s.payments pay h.rows fp in
    let left : sub64 pay.amount_minor pay.refunded_amount_minor ≡ pos (b.amount - b.refunded) =
      rw (b.amount_eq, b.refunded_eq) (sub64_pos b.amount b.refunded b.within b.bounded) in
    let (k, en, le) = fitting i.amount_minor b.refunded b.amount po (rw left at room) b.within in
    let done : IsBalanced
        (with_total i now pay (with_ledger i now pay c (with_event i now pay s))) =
      written i now inv pay c s k b en le h.rows allowed in
    subst IsBalanced (sym e) (
      either_store (is_settled i now inv pay)
        (with_total i now pay (with_ledger i now pay c (with_event i now pay s)))
        (with_open i now inv
          (with_total i now pay (with_ledger i now pay c (with_event i now pay s))))
        done (record { rows = done.rows }))

-- A row whose amounts and id are as they were, against a ledger with the same refunds.
same_row :
    (s : Store) (ledger : List LedgerEntry) (p q : Payment)
    → (q.id ≡ p.id)
      × (q.amount_minor ≡ p.amount_minor)
      × (q.refunded_amount_minor ≡ p.refunded_amount_minor)
    → ledger_refunds p.id ledger ≡ ledger_refunds p.id s.ledger
    → IsBalancedRow s.refund_events s.ledger p
    → IsBalancedRow s.refund_events ledger q
same_row s ledger p q (ei, ea, er) l b = record {
  refunded = b.refunded;
  amount = b.amount;
  refunded_eq = er ∙ b.refunded_eq;
  amount_eq = ea ∙ b.amount_eq;
  within = b.within;
  bounded = b.bounded;
  of_events = rw ei b.of_events;
  of_ledger = rw ei (l ∙ b.of_ledger);
}

-- A capture keeps the balance: what it books is no refund.
pub Captured-IsBalanced :
    (i : PaidInput) (now invoice : ℕ) (s s' : Store)
    → Captured i now invoice s s'
    → IsBalanced s
    → IsBalanced s'
Captured-IsBalanced i now invoice s s' (inv, pay, fi, st, fp, link, cur, amount, e) h =
    let t = captured_store i now inv pay inv.currency s in
    subst IsBalanced (sym e) (record {
      rows =
          All-update_where (IsBalancedRow s.refund_events s.ledger)
            (IsBalancedRow s.refund_events t.ledger) (λ (p : Payment). p.id == pay.id)
            (charged i now) s.payments (λ p x b. same_row s t.ledger p _ (refl, refl, refl) refl b)
            (λ p x b. same_row s t.ledger p p (refl, refl, refl) refl b) h.rows;
    })

-- Noting a failure keeps the balance.
pub FailureNoted-IsBalanced :
    (intent code : Text) (now : ℕ) (s s' : Store)
    → FailureNoted intent code now s s'
    → IsBalanced s
    → IsBalanced s'
FailureNoted-IsBalanced intent code now s s' (inv, pay, paid, (kept, cut, e)) h =
    subst IsBalanced (sym e) (record {
      rows =
          All-update_where (IsBalancedRow s.refund_events s.ledger)
            (IsBalancedRow s.refund_events s.ledger) (λ (p : Payment). p.id == pay.id)
            (λ (p : Payment). record p {
              last_stripe_failure_code = null_string kept;
              updated_at = now;
            })
            s.payments (λ p x b. same_row s s.ledger p _ (refl, refl, refl) refl b) (λ p x b. b)
            h.rows;
    })
