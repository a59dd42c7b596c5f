-- ===== src/Payment/Failure.antt =====
-- `RecordStripePaymentFailure` of internal/repo/stripe_refund.go.
use consulting_revenue_platf.Prelude.{
  ℕ, ◌-◌, Option, none, some, [], ◌∷◌, ◌==◌, ltb, if◌then◌else◌, update_where,
}
use consulting_revenue_platf.Prelude.Text.{Text, trim_space}
use consulting_revenue_platf.Money.Amount.{rune_len}
use consulting_revenue_platf.Store.{
  Payment, Store, sql_failed, payment_not_found, Tx, Result, ok, err, ◌>>=◌, stmt, pure,
}
use consulting_revenue_platf.Invoice.Header.{get_invoice_by_id_for_update}
use consulting_revenue_platf.Payment.Rows.{
  is_blank_text, get_payment_for_update, lookup_by_intent, intent_matches,
}

abbrev cons_text : ℕ → Option Text → Option Text
cons_text c none = none
cons_text c (some s) = some (c ∷ s)

-- `code[:n]` of the bytes; `none` where the cut falls inside a character.
unfoldable pub cut_bytes : ℕ → Text → Option Text
cut_bytes n [] = some []
cut_bytes n (c ∷ s) =
    let rest = cut_bytes (n - rune_len c) s in
    if n == 0 then some [] else if ltb n (rune_len c) then none else cons_text c rest

-- `nullStringSQL`.
abbrev pub null_string : Text → Option Text
null_string s = if is_blank_text (trim_space s) then none else some (trim_space s)

abbrev pub set_failure : Option Text → ℕ → Payment → Payment
set_failure code now p = record p { last_stripe_failure_code = code; updated_at = now }

-- The `UPDATE`; the server refuses a parameter that is not UTF-8.
abbrev pub update_failure : ℕ → Option Text → ℕ → Store → Result (Unit {0} × Store)
update_failure id none now s = err sql_failed
update_failure id (some code) now s = ok (
  tt,
  record s {
    payments =
        update_where (λ (p : Payment). p.id == id) (set_failure (null_string code) now) s.payments;
  },
)

-- With the row that the intent was looked up by.
unfoldable pub fail_payment : Text → Text → Payment → ℕ → Tx (Unit {0})
fail_payment intent code pay0 now = do
  inv ← get_invoice_by_id_for_update pay0.invoice_id
  pay ← get_payment_for_update payment_not_found inv.organization_id inv.id
  if intent_matches pay intent
      then stmt (update_failure pay.id (cut_bytes 255 code) now)
      else pure tt

abbrev pub fail_found : Text → Text → ℕ → Option Payment → Tx (Unit {0})
fail_found intent code now none = pure tt
fail_found intent code now (some pay0) =
    if intent_matches pay0 intent then fail_payment intent code pay0 now else pure tt

unfoldable pub fail_looked_up : Text → Text → ℕ → Tx (Unit {0})
fail_looked_up intent code now = lookup_by_intent intent >>= fail_found intent code now

-- `RecordStripePaymentFailure`.
unfoldable pub record_payment_failure : Text → Text → ℕ → Tx (Unit {0})
record_payment_failure intent0 code now =
    let intent = trim_space intent0 in
    if is_blank_text intent then pure tt else fail_looked_up intent (trim_space code) now
