-- ===== src/Payment/RefundRun.antt =====
-- What a run of `ApplyStripeRefund` does: nothing, or one refund booked in full; and an error comes
-- before the first write, or from a failed statement.
use consulting_revenue_platf.Prelude.{
  ℕ, ◌≡◌, refl, ◌⊎◌, inl, inr, Bool, true, false, ◌&&◌, ◌||◌, ◌≢◌, find, sym, ◌∙◌, [], not, Option,
  none, some, ◌∷◌, ◌==◌, if◌then◌else◌, update_where, arith,
}
use consulting_revenue_platf.Prelude.Int.{pos, ltb_ℤ}
use consulting_revenue_platf.Prelude.Text.{Text, text_eq, text_eq_iff, text_eq_sound}
use consulting_revenue_platf.Int64.{add64, sub64, neg64}
use consulting_revenue_platf.Store.{
  invoice_not_found, payment_not_found, refund_input_missing, refund_exceeds_remaining,
  reconcile_currency_mismatch, InvoiceStatus, Invoice, Payment, LedgerEvent, LedgerEntity, Store,
  Error, sql_failed, ok, err, exec, pure, Settled, Ensures, Ensures-query, Ensures-or_throw,
  Ensures-throw_if, Ensures-exec_last, Ensures-pure, Ensures-if, Ensures-lifted, Ensures-bind,
  Ensures-checked,
}
use consulting_revenue_platf.Money.Currency.{
  normalize_currency, normalize_currency-IsCurrency, normalize_currency_fixed,
}
use consulting_revenue_platf.Ledger.{insert_ledger_entry_tx}
use consulting_revenue_platf.Invoice.Header.{
  is_invoice_in, same_invoice_status, get_invoice_by_id_for_update,
}
use consulting_revenue_platf.Payment.Rows.{
  is_blank_text, is_payment_of, get_payment_for_update, lookup_by_intent,
}
use consulting_revenue_platf.Payment.Intent.{
  IsFor, looked_up, PaidBy, NoPayment, matches-IsFor, matches-not_IsFor,
}
use consulting_revenue_platf.Payment.Refund.{
  RefundInput, trimmed, refund_known, refund_allowed, reopen, book_refund, refund_locked,
  refund_payment, refund_found, apply_stripe_refund,
}

if_true : {A : Type 0} (b : Bool) (x y : A) → b ≡ true → x ≡ (if b then x else y)
if_true true x y h = refl
if_true false x y h = cc

if_false : {A : Type 0} (b : Bool) (x y : A) → b ≡ false → y ≡ (if b then x else y)
if_false true x y h = cc
if_false false x y h = refl

-- An error is one of a failed statement, or nothing was written before it.
abbrev pub Untouched : Store → Error → Bool → Store → Type 0
Untouched s e aborted s' = (aborted ≡ true) ⊎ (s' ≡ s)

module _ (i : RefundInput) (now : ℕ) where
  -- The tables after the refund of `pay`, column by column.
  abbrev pub with_event : Payment → Store → Store
  with_event pay s = record s {
    refund_events =
        record {
          stripe_refund_id = i.stripe_refund_id;
          payment_id = pay.id;
          organization_id = pay.organization_id;
          amount_minor = i.amount_minor;
          currency = pay.currency;
        }
        ∷ s.refund_events;
  }

  abbrev pub with_ledger : Payment → Text → Store → Store
  with_ledger pay c s = record s {
    ledger =
        record {
          organization_id = pay.organization_id;
          event_type = LedgerEvent.refund_applied;
          entity_type = LedgerEntity.payment;
          entity_id = pay.id;
          amount_minor = neg64 i.amount_minor;
          currency = c;
        }
        ∷ s.ledger;
  }

  abbrev pub with_total : Payment → Store → Store
  with_total pay s = record s {
    payments =
        update_where (λ (p : Payment). p.id == pay.id)
          (λ (p : Payment). record p {
            refunded_amount_minor = add64 pay.refunded_amount_minor i.amount_minor;
            updated_at = now;
          })
          s.payments;
  }

  -- A paid invoice of the organization is open again.
  abbrev pub with_open : Invoice → Store → Store
  with_open inv s = record s {
    invoices =
        update_where (is_invoice_in InvoiceStatus.paid inv.organization_id inv.id)
          (λ (x : Invoice). record x { status = InvoiceStatus.issued; updated_at = now })
          s.invoices;
  }

  abbrev pub is_settled : Invoice → Payment → Bool
  is_settled inv pay =
      same_invoice_status inv.status InvoiceStatus.paid
      && not (ltb_ℤ (add64 pay.refunded_amount_minor i.amount_minor) pay.amount_minor)

  abbrev pub refunded_store : Invoice → Payment → Text → Store → Store
  refunded_store inv pay currency s =
      let t = with_total pay (with_ledger pay currency (with_event pay s)) in
      if is_settled inv pay then with_open inv t else t

  -- The refund of the payment of the intent.
  abbrev pub Refunded : Store → Store → Type 0
  Refunded s s' =
      (inv : Invoice) × (pay : Payment) × (ltb_ℤ (pos 0) i.amount_minor ≡ true)
      × PaidBy i.stripe_payment_intent_id s inv pay
      × (normalize_currency i.currency ≡ ok pay.currency)
      × (ltb_ℤ (sub64 pay.amount_minor pay.refunded_amount_minor) i.amount_minor ≡ false)
      × (refund_known i.stripe_refund_id s.refund_events ≡ false)
      × (refund_allowed pay.id (add64 pay.refunded_amount_minor i.amount_minor) s.payments ≡ true)
      × ((c : Text) × (c ≡ pay.currency) × (s' ≡ refunded_store inv pay c s))

  -- Nothing, as no payment is the intent's or the refund is known; or the refund.
  abbrev pub Done : Store → Store → Type 0
  Done s s' =
      ((s' ≡ s)
        × (NoPayment i.stripe_payment_intent_id s
            ⊎ (refund_known i.stripe_refund_id s.refund_events ≡ true)))
      ⊎ Refunded s s'

  -- Why there is no refund: the event lacks an id or a positive amount, the payment or its invoice is
  -- missing, its currency is another, or its amount does not leave room.
  abbrev pub Why : Store → Error → Type 0
  Why s e =
      ((e ≡ refund_input_missing)
        × ((i.stripe_refund_id ≡ [])
            ⊎ (i.stripe_payment_intent_id ≡ [])
            ⊎ (ltb_ℤ (pos 0) i.amount_minor ≡ false)))
      ⊎ ((e ≡ invoice_not_found)
          × ((first : Payment) × (looked_up i.stripe_payment_intent_id s ≡ some first)
              × (find (λ (x : Invoice). x.id == first.invoice_id) s.invoices ≡ none)))
      ⊎ ((e ≡ payment_not_found)
          × ((first : Payment) × (inv : Invoice) × (looked_up i.stripe_payment_intent_id s
                ≡ some first)
              × (find (λ (x : Invoice). x.id == first.invoice_id) s.invoices ≡ some inv)
              × (find (is_payment_of inv.organization_id inv.id) s.payments ≡ none)))
      ⊎ (normalize_currency i.currency ≡ err e)
      ⊎ ((e ≡ reconcile_currency_mismatch)
          × ((inv : Invoice) × (pay : Payment) × PaidBy i.stripe_payment_intent_id s inv pay
              × (normalize_currency i.currency ≢ ok pay.currency)))
      ⊎ ((e ≡ refund_exceeds_remaining)
          × ((inv : Invoice) × (pay : Payment) × PaidBy i.stripe_payment_intent_id s inv pay
              × (ltb_ℤ (sub64 pay.amount_minor pay.refunded_amount_minor) i.amount_minor ≡ true)))

  abbrev pub Unrefunded : Store → Error → Bool → Store → Type 0
  Unrefunded s e aborted s' = (aborted ≡ true) ⊎ ((s' ≡ s) × Why s e)

  pub Unrefunded-Untouched :
      (s : Store) (e : Error) (b : Bool) (s' : Store) → Unrefunded s e b s' → Untouched s e b s'
  Unrefunded-Untouched s e b s' (inl t) = inl t
  Unrefunded-Untouched s e b s' (inr w) = inr w.0

  missing :
      (a b : Text) (m : Bool)
      → (is_blank_text a || is_blank_text b || not m) ≡ true
      → (a ≡ []) ⊎ (b ≡ []) ⊎ (m ≡ false)
  missing [] b m h = inl refl
  missing (c ∷ a) [] m h = inr (inl refl)
  missing (c ∷ a) (d ∷ b) false h = inr (inr refl)
  missing (c ∷ a) (d ∷ b) true h = absurd cc

  other_currency :
      (c : Text) (pay : Payment)
      → normalize_currency i.currency ≡ ok c
      → text_eq c pay.currency ≡ false
      → normalize_currency i.currency ≢ ok pay.currency
  other_currency c pay h t k =
      let same : c ≡ pay.currency = ok_inj (sym h ∙ k) in
      absurd (cc ((text_eq_iff c pay.currency).1 same, t))
    where
      ok_inj : {x y : Text} → ok x ≡ ok y → x ≡ y
      ok_inj e = cc

  module _ (positive : ltb_ℤ (pos 0) i.amount_minor ≡ true) (s : Store) (inv : Invoice)
      (pay : Payment) (paid : PaidBy i.stripe_payment_intent_id s inv pay) where
    -- The last two statements, from the `UPDATE` of the payment on.
    total_written :
        (c : Text) (ec : c ≡ pay.currency) (cur : normalize_currency i.currency ≡ ok pay.currency)
        (room : ltb_ℤ (sub64 pay.amount_minor pay.refunded_amount_minor) i.amount_minor ≡ false)
        (new : refund_known i.stripe_refund_id s.refund_events ≡ false) (b : Bool)
        → refund_allowed pay.id (add64 pay.refunded_amount_minor i.amount_minor) s.payments ≡ b
        → Settled
            (λ u s'.
              Ensures
                (if is_settled inv pay
                  then exec (reopen inv.organization_id inv.id now)
                  else pure tt)
                s'
                (λ v. Done s)
                (Unrefunded s))
            (Unrefunded s)
            (with_ledger pay c (with_event pay s))
            (if b
              then ok (tt, with_total pay (with_ledger pay c (with_event pay s)))
              else err sql_failed)
    total_written c ec cur room new false a = inl refl
    total_written c ec cur room new true a =
        let u = with_total pay (with_ledger pay c (with_event pay s)) in
        let v = with_open inv u in
        Ensures-if (is_settled inv pay) _ _
          (λ t.
            Ensures-exec_last (reopen inv.organization_id inv.id now)
              (inr (inv, pay, positive, paid, cur, room, new, a, (c, ec, if_true _ v u t))))
          (λ t.
            Ensures-pure tt
              (inr (inv, pay, positive, paid, cur, room, new, a, (c, ec, if_false _ v u t))))

    book_refund-Ensures :
        (cur : normalize_currency i.currency ≡ ok pay.currency)
        → ltb_ℤ (sub64 pay.amount_minor pay.refunded_amount_minor) i.amount_minor ≡ false
        → refund_known i.stripe_refund_id s.refund_events ≡ false
        → Ensures (book_refund i inv pay now) (with_event pay s) (λ u. Done s) (Unrefunded s)
    unfolding book_refund insert_ledger_entry_tx
    book_refund-Ensures cur room new =
        let fixed : normalize_currency pay.currency ≡ ok pay.currency =
          normalize_currency_fixed _ (normalize_currency-IsCurrency _ _ cur) in
        Ensures-bind _ _ (
          Ensures-lifted _ _ (λ e h. absurd (cc (h, fixed)))
            (λ c h. Ensures-exec_last _ (
              Ensures-checked _ _ (
                total_written c (cc (h, fixed)) cur room new
                  (refund_allowed pay.id (add64 pay.refunded_amount_minor i.amount_minor)
                    s.payments)
                  refl))))

    refund_locked-Ensures : Ensures (refund_locked i inv pay now) s (λ u. Done s) (Unrefunded s)
    unfolding refund_locked
    refund_locked-Ensures =
        Ensures-lifted _ _ (λ e h. inr (refl, inr (inr (inr (inl h)))))
          (λ c h.
            Ensures-throw_if _ _ _
              (λ t. inr (
                refl,
                inr (
                    inr (
                      inr (
                        inr (
                          inl (
                            refl,
                            (inv, pay, paid, other_currency c pay h (ground (arith, t))),
                          ))))),
              ))
              (λ t.
                Ensures-throw_if _ _ _
                  (λ r. inr (refl, inr (inr (inr (inr (inr (refl, (inv, pay, paid, r))))))))
                  (λ room. Ensures-checked _ _ (
                    event_written (cc (h, text_eq_sound c pay.currency (ground arith))) room
                      (refund_known i.stripe_refund_id s.refund_events) refl))))
      where
        event_written :
            (cur : normalize_currency i.currency ≡ ok pay.currency)
            → ltb_ℤ (sub64 pay.amount_minor pay.refunded_amount_minor) i.amount_minor ≡ false
            → (b : Bool) → refund_known i.stripe_refund_id s.refund_events ≡ b
            → Settled
                (λ inserted s'.
                  Ensures
                    (if inserted then book_refund i inv pay now else pure tt)
                    s'
                    (λ u. Done s)
                    (Unrefunded s))
                (Unrefunded s)
                s
                (if b then ok (false, s) else ok (true, with_event pay s))
        event_written cur room true k = Ensures-pure _ (inl (refl, inr k))
        event_written cur room false k = book_refund-Ensures cur room k

  refund_payment-Ensures :
      (positive : ltb_ℤ (pos 0) i.amount_minor ≡ true) (s : Store) (first : Payment)
      → looked_up i.stripe_payment_intent_id s ≡ some first
      → IsFor i.stripe_payment_intent_id first
      → Ensures (refund_payment i first now) s (λ u. Done s) (Unrefunded s)
  unfolding refund_payment get_invoice_by_id_for_update get_payment_for_update
  refund_payment-Ensures positive s first l m = Ensures-bind _ _ (
      Ensures-query _ _ (
        Ensures-or_throw _ _ (λ h. inr (refl, inr (inl (refl, (first, l, h)))))
          (λ inv fi. Ensures-bind _ _ (
            Ensures-query _ _ (
              Ensures-or_throw _ _ (λ h. inr (refl, inr (inr (inl (refl, (first, inv, l, fi, h))))))
                (λ pay fp.
                  Ensures-if _ _ _
                    (λ t.
                      refund_locked-Ensures positive s inv pay
                        (first, l, m, fi, fp, matches-IsFor _ pay t))
                    (λ t. Ensures-pure _ (
                      inl (
                        refl,
                        inl (inr (inr (first, inv, pay, l, fi, fp, matches-not_IsFor _ pay t))),
                      )))))))))

  refund_found-Ensures :
      (positive : ltb_ℤ (pos 0) i.amount_minor ≡ true) (s : Store) (o : Option Payment)
      → looked_up i.stripe_payment_intent_id s ≡ o
      → Ensures (refund_found i now o) s (λ u. Done s) (Unrefunded s)
  refund_found-Ensures positive s none l = Ensures-pure _ (inl (refl, inl (inl l)))
  refund_found-Ensures positive s (some first) l =
      Ensures-if _ _ _ (λ t. refund_payment-Ensures positive s first l (matches-IsFor _ first t))
        (λ t. Ensures-pure _ (inl (refl, inl (inr (inl (first, l, matches-not_IsFor _ first t))))))

-- `ApplyStripeRefund`, with any statements failed. On success nothing is changed, and the refund is
-- known or no payment has the intent, looked up and then by its invoice; or the refund is positive, in
-- the payment's currency and within what is left of its amount, the payment has the intent, the refund
-- event, its ledger entry and the new total are written, and an invoice that was paid and is refunded
-- in full is issued again. An error came from a failed statement; or nothing is written, and the event
-- lacks an id or a positive amount, the payment or its invoice is missing, the currency is not accepted
-- or not the payment's, or the amount is more than what is left.
pub apply_stripe_refund-Ensures :
    (input : RefundInput) (now : ℕ) (s : Store)
    → Ensures
        (apply_stripe_refund input now)
        s
        (λ u. Done (trimmed input) now s)
        (Unrefunded (trimmed input) now s)
unfolding apply_stripe_refund lookup_by_intent
apply_stripe_refund-Ensures input now s =
    Ensures-throw_if _ _ _ (λ t. inr (refl, inl (refl, missing (trimmed input) now _ _ _ t)))
      (λ t. Ensures-query _ _ (
        refund_found-Ensures (trimmed input) now (ground arith) s
          (looked_up (trimmed input).stripe_payment_intent_id s) refl))
