-- ===== src/Payment/Rows.antt =====
-- Payment rows: how they are found (internal/repo/payments.go, internal/repo/stripe_refund.go).
use consulting_revenue_platf.Prelude.{
  ℕ, Bool, true, false, ◌&&◌, Option, none, some, [], ◌∷◌, ◌==◌, if◌then◌else◌, find,
}
use mathlib.Core.List.{reverse}
use consulting_revenue_platf.Prelude.Text.{Text, text_eq, trim_space}
use consulting_revenue_platf.Store.{
  Payment, Error, payment_not_found, Tx, ◌>>=◌, query, or_throw, Db, Result, auto,
}

-- `BTRIM` of SQL, which takes off spaces alone.
unfoldable pub btrim_left : Text → Text
btrim_left [] = []
btrim_left (c ∷ s) = if c == 0x20 then btrim_left s else c ∷ s

unfoldable pub btrim : Text → Text
unfolding btrim_left
btrim s = reverse (btrim_left (reverse (btrim_left s)))

abbrev pub is_blank_text : Text → Bool
is_blank_text [] = true
is_blank_text (c ∷ s) = false

-- `WHERE organization_id = $1 AND invoice_id = $2`.
abbrev pub is_payment_of : ℕ → ℕ → Payment → Bool
is_payment_of org invoice p = p.organization_id == org && p.invoice_id == invoice

-- `GetPaymentByInvoiceForUpdate`, with the error that the caller gives for no row.
unfoldable pub get_payment_for_update : Error → ℕ → ℕ → Tx Payment
get_payment_for_update e org invoice =
    query (λ s. find (is_payment_of org invoice) s.payments) >>= λ row. or_throw row e

-- `GetPaymentByInvoice`.
unfoldable pub get_payment_by_invoice : ℕ → ℕ → Db → Result Payment × Db
get_payment_by_invoice org invoice = auto (
    query (λ s. find (is_payment_of org invoice) s.payments) >>= λ row.
    or_throw row payment_not_found)

-- The row of a PaymentIntent, by `BTRIM(stripe_payment_intent_id) = BTRIM($1)`.
abbrev pub has_intent : Text → Payment → Bool
has_intent want p = elim (p.stripe_payment_intent_id) [
  | none ↦ false
  | some x ↦ text_eq (btrim x) (btrim want)
]

-- `LookupPaymentByStripePaymentIntentID`; no row is `none`.
unfoldable pub lookup_by_intent : Text → Tx (Option Payment)
lookup_by_intent want =
    let w = trim_space want in
    query (λ s. if is_blank_text w then none else find (has_intent w) s.payments)

-- `paymentIntentIDMatches`.
unfoldable pub intent_matches : Payment → Text → Bool
intent_matches p want =
    let w = trim_space want in
    if is_blank_text w
    then false
    else elim (p.stripe_payment_intent_id) [ none ↦ false | some x ↦ text_eq (trim_space x) w ]
