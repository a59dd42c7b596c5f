-- ===== src/Payment/Intent.antt =====
-- Which payment a PaymentIntent of Stripe is for: the rows by which internal/repo/stripe_refund.go finds
-- it, and what `paymentIntentIDMatches` decides.
use mathlib.Core.Option.{none-ne-some}
use consulting_revenue_platf.Prelude.{
  ◌≡◌, refl, ap, ◌∙◌, ◌⊎◌, Bool, true, false, Option, none, some, ◌==◌, if◌then◌else◌, find,
  some_inj,
}
use consulting_revenue_platf.Prelude.Text.{Text, text_eq, text_eq_sound, text_eq_iff, trim_space}
use consulting_revenue_platf.Store.{Invoice, Payment, Store}
use consulting_revenue_platf.Payment.Rows.{is_blank_text, is_payment_of, has_intent, intent_matches}

-- The payment has the intent's id, spaces around it aside, and the id is not blank.
abbrev pub IsFor : Text → Payment → Type 0
IsFor want p =
    (is_blank_text (trim_space want) ≡ false)
    × ((x : Text) × (p.stripe_payment_intent_id ≡ some x) × (trim_space x ≡ trim_space want))

-- The row that the intent is looked up by.
abbrev pub looked_up : Text → Store → Option Payment
looked_up want s =
    if is_blank_text (trim_space want) then none else find (has_intent (trim_space want)) s.payments

-- The intent's row is of the invoice, and the row that the invoice's payment is has the intent.
abbrev pub PaidBy : Text → Store → Invoice → Payment → Type 0
PaidBy want s inv pay =
    (first : Payment) × (looked_up want s ≡ some first)
    × IsFor want first
    × (find (λ (x : Invoice). x.id == first.invoice_id) s.invoices ≡ some inv)
    × (find (is_payment_of inv.organization_id inv.id) s.payments ≡ some pay)
    × IsFor want pay

-- Why no payment is the intent's.
abbrev pub NoPayment : Text → Store → Type 0
NoPayment want s =
    (looked_up want s ≡ none)
    ⊎ ((first : Payment) × (looked_up want s ≡ some first) × (¬ IsFor want first))
    ⊎ ((first : Payment) × (inv : Invoice) × (pay : Payment) × (looked_up want s ≡ some first)
        × (find (λ (x : Invoice). x.id == first.invoice_id) s.invoices ≡ some inv)
        × (find (is_payment_of inv.organization_id inv.id) s.payments ≡ some pay)
        × (¬ IsFor want pay))

pub matches-IsFor : (want : Text) (p : Payment) → intent_matches p want ≡ true → IsFor want p
unfolding intent_matches
matches-IsFor want p h = given (is_blank_text (trim_space want)) p.stripe_payment_intent_id h
  where
    given :
        (b : Bool) (o : Option Text)
        → (if b
            then false
            else elim o [ none ↦ false | some x ↦ text_eq (trim_space x) (trim_space want) ])
          ≡ true
        → (b ≡ false) × ((x : Text) × (o ≡ some x) × (trim_space x ≡ trim_space want))
    given true o h = cc
    given false none h = cc
    given false (some x) h = (refl, (x, refl, text_eq_sound _ _ h))

pub matches-not_IsFor : (want : Text) (p : Payment) → intent_matches p want ≡ false → ¬ IsFor want p
unfolding intent_matches
matches-not_IsFor want p h = given (is_blank_text (trim_space want)) p.stripe_payment_intent_id h
  where
    given :
        (b : Bool) (o : Option Text)
        → (if b
            then false
            else elim o [ none ↦ false | some x ↦ text_eq (trim_space x) (trim_space want) ])
          ≡ false
        → ¬ ((b ≡ false) × ((x : Text) × (o ≡ some x) × (trim_space x ≡ trim_space want)))
    given true o h (e, r) = cc
    given false none h (e, (x, t, r)) = none-ne-some x t
    given false (some y) h (e, (x, t, r)) =
        let m : text_eq (trim_space y) (trim_space want) ≡ true =
          (text_eq_iff (trim_space y) (trim_space want)).1 (ap trim_space (some_inj t) ∙ r) in
        absurd (cc (m, h))
