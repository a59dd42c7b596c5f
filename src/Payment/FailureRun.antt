-- ===== src/Payment/FailureRun.antt =====
-- What a run of `RecordStripePaymentFailure` does: nothing, or one column of one payment.
use consulting_revenue_platf.Prelude.{
  ℕ, ◌≡◌, refl, ◌⊎◌, inl, inr, true, Option, none, some, ◌==◌, update_where,
}
use consulting_revenue_platf.Prelude.Text.{Text, trim_space}
use consulting_revenue_platf.Store.{
  Invoice, Payment, Store, stmt, Ensures, Ensures-query, Ensures-or_throw, Ensures-pure, Ensures-if,
  Ensures-bind, Ensures-stmt, Settled,
}
use consulting_revenue_platf.Invoice.Header.{get_invoice_by_id_for_update}
use consulting_revenue_platf.Payment.Rows.{
  is_blank_text, get_payment_for_update, lookup_by_intent, intent_matches,
}
use consulting_revenue_platf.Payment.Intent.{
  IsFor, looked_up, PaidBy, NoPayment, matches-IsFor, matches-not_IsFor,
}
use consulting_revenue_platf.Payment.RefundRun.{Untouched}
use consulting_revenue_platf.Payment.Failure.{
  cut_bytes, null_string, update_failure, fail_payment, fail_found, fail_looked_up,
  record_payment_failure,
}

-- The failure code of the intent's payment, cut to 255 bytes, and no other column but the time.
abbrev pub FailureNoted : Text → Text → ℕ → Store → Store → Type 0
FailureNoted intent code now s s' =
    (inv : Invoice) × (pay : Payment) × PaidBy intent s inv pay
    × ((kept : Text) × (cut_bytes 255 code ≡ some kept)
        × (s' ≡ record s {
          payments =
              update_where (λ (p : Payment). p.id == pay.id)
                (λ (p : Payment). record p {
                  last_stripe_failure_code = null_string kept;
                  updated_at = now;
                })
                s.payments;
        }))

-- Nothing, as no payment is the intent's; or the failure's code.
abbrev pub FailureDone : Text → Text → ℕ → Store → Store → Type 0
FailureDone intent code now s s' =
    ((s' ≡ s) × ((is_blank_text (trim_space intent) ≡ true) ⊎ NoPayment (trim_space intent) s))
    ⊎ FailureNoted (trim_space intent) code now s s'

module _ (intent0 code : Text) (now : ℕ) (s : Store) where
  abbrev intent : Text
  intent = trim_space intent0

  abbrev Post : Unit {0} → Store → Type 0
  Post u s' = FailureDone intent0 code now s s'

  noted :
      (inv : Invoice) (pay : Payment) (paid : PaidBy intent s inv pay) (o : Option Text)
      → cut_bytes 255 code ≡ o
      → Settled Post (Untouched s) s (update_failure pay.id o now s)
  noted inv pay paid none h = inl refl
  noted inv pay paid (some kept) h = inr (inv, pay, paid, (kept, h, refl))

  fail_payment-Ensures :
      (first : Payment)
      → looked_up intent s ≡ some first
      → IsFor intent first
      → Ensures (fail_payment intent code first now) s Post (Untouched s)
  unfolding fail_payment get_invoice_by_id_for_update get_payment_for_update
  fail_payment-Ensures first l m = Ensures-bind _ _ (
      Ensures-query _ _ (
        Ensures-or_throw _ _ (λ h. inr refl)
          (λ inv fi. Ensures-bind _ _ (
            Ensures-query _ _ (
              Ensures-or_throw _ _ (λ h. inr refl)
                (λ pay fp.
                  Ensures-if (intent_matches pay intent)
                    (stmt (update_failure pay.id (cut_bytes 255 code) now)) _
                    (λ t. Ensures-stmt (update_failure pay.id (cut_bytes 255 code) now) (
                      noted inv pay (first, l, m, fi, fp, matches-IsFor intent pay t)
                        (cut_bytes 255 code) refl))
                    (λ t. Ensures-pure _ (
                      inl (
                        refl,
                        inr (
                            inr (inr (first, inv, pay, l, fi, fp, matches-not_IsFor intent pay t))),
                      )))))))))

  fail_found-Ensures :
      (o : Option Payment)
      → looked_up intent s ≡ o
      → Ensures (fail_found intent code now o) s Post (Untouched s)
  fail_found-Ensures none l = Ensures-pure _ (inl (refl, inr (inl l)))
  fail_found-Ensures (some first) l =
      Ensures-if (intent_matches first intent) _ _
        (λ t. fail_payment-Ensures first l (matches-IsFor intent first t))
        (λ t.
          Ensures-pure _ (inl (refl, inr (inr (inl (first, l, matches-not_IsFor intent first t))))))

  fail_looked_up-Ensures : Ensures (fail_looked_up intent code now) s Post (Untouched s)
  unfolding fail_looked_up lookup_by_intent
  fail_looked_up-Ensures = Ensures-query _ _ (fail_found-Ensures (looked_up intent s) refl)

pub record_payment_failure-Ensures :
    (want code : Text) (now : ℕ) (s : Store)
    → Ensures
        (record_payment_failure want code now)
        s
        (λ u. FailureDone want (trim_space code) now s)
        (Untouched s)
unfolding record_payment_failure
record_payment_failure-Ensures want code now s =
    Ensures-if (is_blank_text (trim_space want)) _ _ (λ t. Ensures-pure _ (inl (refl, inl t)))
      (λ t. fail_looked_up-Ensures want (trim_space code) now s)
