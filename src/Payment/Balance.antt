-- ===== src/Payment/Balance.antt =====
-- The refunds of a payment: its running total is the sum of its refund events, and of its entries in
-- the ledger, and never exceeds the amount that was paid.
use consulting_revenue_platf.Prelude.{
  ℕ, ◌+◌, ◌≤◌, ◌<◌, ◌≡◌, refl, Bool, true, false, ◌&&◌, ◌||◌, not, List, [], ◌∷◌, ◌==◌,
  if◌then◌else◌, update_where, All, arith,
}
use consulting_revenue_platf.Prelude.Int.{pos, pos_part, neg_part, ltb_ℤ}
use consulting_revenue_platf.Int64.{two63}
use consulting_revenue_platf.Store.{Payment, RefundEvent, LedgerEvent, LedgerEntry, Store}
use consulting_revenue_platf.Payment.Refund.{refund_allowed, set_refunded}

abbrev pub refund_total : ℕ → List RefundEvent → ℕ
refund_total id [] = 0
refund_total id (r ∷ rs) =
    let rest = refund_total id rs in
    if r.payment_id == id then pos_part r.amount_minor + rest else rest

abbrev is_refund : LedgerEvent → Bool
is_refund LedgerEvent.refund_applied = true
is_refund LedgerEvent.invoice_issued = false
is_refund LedgerEvent.payment_captured = false

abbrev pub ledger_refunds : ℕ → List LedgerEntry → ℕ
ledger_refunds id [] = 0
ledger_refunds id (l ∷ ls) =
    let rest = ledger_refunds id ls in
    if is_refund l.event_type && l.entity_id == id then neg_part l.amount_minor + rest else rest

pub record IsBalancedRow (events : List RefundEvent) (ledger : List LedgerEntry) (p : Payment)
    : Type 0 where
  pub refunded : ℕ
  pub amount : ℕ
  pub refunded_eq : p.refunded_amount_minor ≡ pos refunded
  pub amount_eq : p.amount_minor ≡ pos amount
  pub within : refunded ≤ amount
  pub bounded : amount < two63
  pub of_events : refund_total p.id events ≡ refunded
  pub of_ledger : ledger_refunds p.id ledger ≡ refunded

-- Every payment, against the other two tables.
pub record IsBalanced (s : Store) : Type 0 where
  pub rows : All (IsBalancedRow s.refund_events s.ledger) s.payments

module _ (e : RefundEvent) (l : LedgerEntry) (events : List RefundEvent) (ledger : List LedgerEntry)
    (id n t now : ℕ) (ei : e.payment_id ≡ id) (ea : e.amount_minor ≡ pos n)
    (lr : l.event_type ≡ LedgerEvent.refund_applied) (li : l.entity_id ≡ id)
    (la : neg_part l.amount_minor ≡ n) (total : refund_total id events ≡ t) where
  -- One refund more, on its own payment and on another.
  own_row :
      (p : Payment)
      → p.id ≡ id
      → IsBalancedRow events ledger p
      → ltb_ℤ p.amount_minor (pos (t + n)) ≡ false
      → IsBalancedRow (e ∷ events) (l ∷ ledger) (set_refunded (pos (t + n)) now p)
  own_row p h b ok =
      let fits : ltb_ℤ (pos b.amount) (pos (t + n)) ≡ false = rw b.amount_eq at ok in
      record {
        refunded = t + n;
        amount = b.amount;
        refunded_eq = refl;
        amount_eq = b.amount_eq;
        within = ground arith;
        bounded = b.bounded;
        of_events = ground (arith, b.of_events);
        of_ledger = ground (arith, b.of_ledger, b.of_events);
      }

  other_row :
      (p : Payment)
      → (p.id == id) ≡ false
      → IsBalancedRow events ledger p
      → IsBalancedRow (e ∷ events) (l ∷ ledger) p
  other_row p h b = record {
    refunded = b.refunded;
    amount = b.amount;
    refunded_eq = b.refunded_eq;
    amount_eq = b.amount_eq;
    within = b.within;
    bounded = b.bounded;
    of_events = ground (arith, b.of_events);
    of_ledger = ground (arith, b.of_ledger);
  }

  either_row :
      (p : Payment) (b : Bool)
      → (p.id == id) ≡ b
      → IsBalancedRow events ledger p
      → (not b || not (ltb_ℤ p.amount_minor (pos (t + n)))) ≡ true
      → IsBalancedRow (e ∷ events) (l ∷ ledger) (if b then set_refunded (pos (t + n)) now p else p)
  either_row p true h r a = own_row p (ground arith) r (ground arith)
  either_row p false h r a = other_row p h r

  pub rows_kept :
      (ps : List Payment)
      → All (IsBalancedRow events ledger) ps
      → refund_allowed id (pos (t + n)) ps ≡ true
      → All
          (IsBalancedRow (e ∷ events) (l ∷ ledger))
          (update_where (λ (p : Payment). p.id == id) (set_refunded (pos (t + n)) now) ps)
  rows_kept [] h a = tt
  rows_kept (p ∷ ps) h a =
      (either_row p (p.id == id) refl h.0 (ground arith), rows_kept ps h.1 (ground arith))
