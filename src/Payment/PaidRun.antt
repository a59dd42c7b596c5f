-- ===== src/Payment/PaidRun.antt =====
-- What a run of `ReconcileStripePaymentPaid` does: nothing, or one capture of the whole amount.
use mathlib.Core.Path.{ap₂}
use mathlib.Core.Path.{sym, subst}
use consulting_revenue_platf.Prelude.{
  Bool, ◌≢◌, ap, ◌∙◌, List, if◌then◌else◌, update_where_ap, ℕ, ◌≡◌, refl, ◌⊎◌, inl, inr, true,
  false, ◌&&◌, not, Option, none, some, [], ◌∷◌, ◌==◌, find, update_where, update_where-none, arith,
}
use consulting_revenue_platf.Prelude.Int.{ℤ, pos, negsuc, eqb_ℤ, eqb_ℤ_sound}
use consulting_revenue_platf.Prelude.Text.{
  Text, codes, trim_space, text_eq, text_eq_iff, text_eq_sound,
}
use consulting_revenue_platf.Store.{
  Error, err, invoice_not_found, reconcile_not_issued, reconcile_no_payment,
  reconcile_link_mismatch, reconcile_amount_mismatch, reconcile_currency_mismatch, InvoiceStatus,
  Invoice, Payment, LedgerEvent, LedgerEntity, Store, ok, Ensures, Ensures-query, Ensures-or_throw,
  Ensures-throw, Ensures-throw_if, Ensures-exec, Ensures-exec_last, Ensures-pure, Ensures-if,
  Ensures-lifted, Ensures-bind, Ensures-checked,
}
use consulting_revenue_platf.Money.Currency.{
  normalize_currency, normalize_currency-IsCurrency, normalize_currency_fixed,
}
use consulting_revenue_platf.Ledger.{append_ledger, insert_ledger_entry_tx}
use consulting_revenue_platf.Invoice.Header.{
  is_invoice_in, same_invoice_status, get_invoice_by_id_for_update,
}
use consulting_revenue_platf.Payment.Rows.{
  is_blank_text, btrim, is_payment_of, get_payment_for_update,
}
use consulting_revenue_platf.Payment.RefundRun.{Untouched}
use consulting_revenue_platf.Payment.Reconcile.{
  PaidInput, mark_paid, coalesce_id, set_stripe_ids, update_stripe_ids, log_paid, capture,
  reconcile_issued, reconcile_payment_paid,
}

module _ (i : PaidInput) (now : ℕ) where
  -- An id of Stripe that the payment had is kept, less the spaces around it; a missing or blank one is
  -- taken from the event, if that has one.
  abbrev pub stripe_id : Option Text → Text → Option Text
  stripe_id old new =
      let given = if is_blank_text (btrim new) then none else some (btrim new) in
      elim old [ none ↦ given | some x ↦ if is_blank_text (btrim x) then given else some (btrim x) ]

  abbrev pub charged : Payment → Payment
  charged p = record p {
    stripe_checkout_session_id =
        stripe_id p.stripe_checkout_session_id (trim_space i.stripe_checkout_session_id);
    stripe_payment_intent_id =
        stripe_id p.stripe_payment_intent_id (trim_space i.stripe_payment_intent_id);
    updated_at = now;
  }

  -- The tables after the capture, column by column: the invoice is paid, the payment has the ids of
  -- Stripe, the ledger has the whole amount, and the audit log one row.
  abbrev pub captured_store : Invoice → Payment → Text → Store → Store
  captured_store inv pay c s = record s {
    invoices =
        update_where (is_invoice_in InvoiceStatus.issued inv.organization_id inv.id)
          (λ (x : Invoice). record x { status = InvoiceStatus.paid; updated_at = now }) s.invoices;
    payments = update_where (λ (p : Payment). p.id == pay.id) charged s.payments;
    ledger =
        record {
          organization_id = inv.organization_id;
          event_type = LedgerEvent.payment_captured;
          entity_type = LedgerEntity.payment;
          entity_id = pay.id;
          amount_minor = pay.amount_minor;
          currency = c;
        }
        ∷ s.ledger;
    audit_logs =
        record {
          organization_id = some inv.organization_id;
          actor_user_id = none;
          action = codes "invoice.paid";
          entity_type = codes "invoice";
          entity_id = some inv.id;
        }
        ∷ s.audit_logs;
  }

  -- The statements' own tables.
  abbrev with_paid : Invoice → Store → Store
  with_paid inv s = record s {
    invoices =
        update_where (is_invoice_in InvoiceStatus.issued inv.organization_id inv.id) (mark_paid now)
          s.invoices;
  }

  abbrev written_store : Invoice → Payment → Text → Store → Store
  written_store inv pay c s = log_paid inv.organization_id inv.id (
      append_ledger inv.organization_id LedgerEvent.payment_captured LedgerEntity.payment pay.id
        pay.amount_minor c
        (update_stripe_ids pay.id i.stripe_checkout_session_id i.stripe_payment_intent_id now
          (with_paid inv s)))

  coalesce_id_lem : (old : Option Text) (new : Text) → coalesce_id old new ≡ stripe_id old new
  coalesce_id_lem none new = refl
  coalesce_id_lem (some x) new = refl

  charged_lem :
      (p : Payment)
      → set_stripe_ids i.stripe_checkout_session_id i.stripe_payment_intent_id now p ≡ charged p
  charged_lem p =
      ap₂
        (λ (x y : Option Text). record p {
          stripe_checkout_session_id = x;
          stripe_payment_intent_id = y;
          updated_at = now;
        })
        (coalesce_id_lem p.stripe_checkout_session_id (trim_space i.stripe_checkout_session_id))
        (coalesce_id_lem p.stripe_payment_intent_id (trim_space i.stripe_payment_intent_id))

  written_lem :
      (inv : Invoice) (pay : Payment) (c : Text) (s : Store)
      → written_store inv pay c s ≡ captured_store inv pay c s
  written_lem inv pay c s =
      ap (λ (rows : List Payment). record (captured_store inv pay c s) { payments = rows })
        (update_where_ap (λ (p : Payment). p.id == pay.id) _ charged s.payments charged_lem)

  -- An issued invoice, its payment row, and a charge that agrees with both.
  abbrev pub Captured : ℕ → Store → Store → Type 0
  Captured invoice s s' =
      (inv : Invoice) × (pay : Payment) × (find (λ (x : Invoice). x.id == invoice) s.invoices
        ≡ some inv)
      × (inv.status ≡ InvoiceStatus.issued)
      × (find (is_payment_of inv.organization_id inv.id) s.payments ≡ some pay)
      × ((i.stripe_payment_link_id ≡ []) ⊎ (i.stripe_payment_link_id ≡ pay.stripe_payment_link_id))
      × (normalize_currency i.currency ≡ ok inv.currency)
      × (i.amount_minor ≡ pay.amount_minor)
      × (s' ≡ captured_store inv pay inv.currency s)

  -- An invoice that is paid already, or a capture.
  abbrev pub PaidDone : ℕ → Store → Store → Type 0
  PaidDone invoice s s' =
      ((inv : Invoice) × (find (λ (x : Invoice). x.id == invoice) s.invoices ≡ some inv)
        × (inv.status ≡ InvoiceStatus.paid)
        × (s' ≡ s))
      ⊎ Captured invoice s s'

  -- Why there is no capture: the invoice is missing or not issued, it has no payment, or the charge has
  -- another link, currency or amount.
  abbrev pub Why : ℕ → Store → Error → Type 0
  Why invoice s e =
      ((e ≡ invoice_not_found) × (find (λ (x : Invoice). x.id == invoice) s.invoices ≡ none))
      ⊎ ((inv : Invoice) × (find (λ (x : Invoice). x.id == invoice) s.invoices ≡ some inv)
          × (((e ≡ reconcile_not_issued)
                × (((inv.status ≢ InvoiceStatus.paid) × (inv.status ≢ InvoiceStatus.issued))
                    ⊎ (find (is_invoice_in InvoiceStatus.issued inv.organization_id inv.id)
                          s.invoices
                        ≡ none)))
              ⊎ ((e ≡ reconcile_no_payment)
                  × (find (is_payment_of inv.organization_id inv.id) s.payments ≡ none))
              ⊎ (normalize_currency i.currency ≡ err e)
              ⊎ ((e ≡ reconcile_currency_mismatch)
                  × (normalize_currency i.currency ≢ ok inv.currency))
              ⊎ ((pay : Payment) × (find (is_payment_of inv.organization_id inv.id) s.payments
                    ≡ some pay)
                  × (((e ≡ reconcile_link_mismatch)
                        × (i.stripe_payment_link_id ≢ pay.stripe_payment_link_id))
                      ⊎ ((e ≡ reconcile_amount_mismatch) × (i.amount_minor ≢ pay.amount_minor))))))

  abbrev pub Uncaptured : ℕ → Store → Error → Bool → Store → Type 0
  Uncaptured invoice s e aborted s' = (aborted ≡ true) ⊎ ((s' ≡ s) × Why invoice s e)

  pub Uncaptured-Untouched :
      (invoice : ℕ) (s : Store) (e : Error) (b : Bool) (s' : Store)
      → Uncaptured invoice s e b s'
      → Untouched s e b s'
  Uncaptured-Untouched invoice s e b s' (inl t) = inl t
  Uncaptured-Untouched invoice s e b s' (inr w) = inr w.0

  other_status : (a b : InvoiceStatus) → same_invoice_status a b ≡ false → a ≢ b
  other_status a b h k = absurd (cc (same_refl b, subst (λ x. same_invoice_status x b ≡ false) k h))
    where
      same_refl : (c : InvoiceStatus) → same_invoice_status c c ≡ true
      same_refl c = ground arith

  other_text : (a b : Text) → text_eq a b ≡ false → a ≢ b
  other_text a b h k = absurd (cc ((text_eq_iff a b).1 k, h))

  other_amount : (a b : ℤ) → eqb_ℤ a b ≡ false → a ≢ b
  other_amount a b h k = absurd (cc (eqb_refl b, subst (λ x. eqb_ℤ x b ≡ false) k h))
    where
      eqb_refl : (z : ℤ) → eqb_ℤ z z ≡ true
      eqb_refl (pos n) = ground arith
      eqb_refl (negsuc n) = ground arith

  other_currency :
      (c d : Text)
      → normalize_currency i.currency ≡ ok c
      → text_eq c d ≡ false
      → normalize_currency i.currency ≢ ok d
  other_currency c d h t k = other_text c d t (ok_inj (sym h ∙ k))
    where
      ok_inj : {x y : Text} → ok x ≡ ok y → x ≡ y
      ok_inj e = cc

  status_sound : (a b : InvoiceStatus) → same_invoice_status a b ≡ true → a ≡ b
  status_sound a b h = ground arith

  link_agrees :
      (a b : Text) → (not (is_blank_text a) && not (text_eq a b)) ≡ false → (a ≡ []) ⊎ (a ≡ b)
  link_agrees [] b h = inl refl
  link_agrees (c ∷ a) b h = inr (text_eq_sound (c ∷ a) b (ground arith))

  module _ (invoice : ℕ) (s : Store) (inv : Invoice) (pay : Payment)
      (fi : find (λ (x : Invoice). x.id == invoice) s.invoices ≡ some inv)
      (st : inv.status ≡ InvoiceStatus.issued)
      (fp : find (is_payment_of inv.organization_id inv.id) s.payments ≡ some pay)
      (link : (i.stripe_payment_link_id ≡ [])
        ⊎ (i.stripe_payment_link_id ≡ pay.stripe_payment_link_id))
      (cur : normalize_currency i.currency ≡ ok inv.currency)
      (amount : i.amount_minor ≡ pay.amount_minor) where
    capture-Ensures :
        Ensures (capture i inv pay now) s (λ u. PaidDone invoice s) (Uncaptured invoice s)
    unfolding capture insert_ledger_entry_tx
    capture-Ensures =
        let fixed : normalize_currency inv.currency ≡ ok inv.currency =
          normalize_currency_fixed _ (normalize_currency-IsCurrency _ _ cur) in
        Ensures-checked _ _ (
          Ensures-throw_if _ _ _
            (λ t.
              let (same, none_issued) = unreached _ refl t in
              inr (same, inr (inv, fi, inl (refl, inr none_issued))))
            (λ t. Ensures-exec _ _ (
              Ensures-bind _ _ (
                Ensures-lifted _ _ (λ e h. absurd (cc (h, fixed)))
                  (λ c h. Ensures-exec_last _ (
                    Ensures-exec_last _ (
                      inr (inv, pay, fi, st, fp, link, cur, amount, booked c (cc (h, fixed))))))))))
      where
        unreached :
            (o : Option Invoice)
            → find (is_invoice_in InvoiceStatus.issued inv.organization_id inv.id) s.invoices ≡ o
            → not (elim o [ none ↦ false | some x ↦ true ]) ≡ true
            → (with_paid inv s ≡ s)
              × (find (is_invoice_in InvoiceStatus.issued inv.organization_id inv.id) s.invoices
                  ≡ none)
        unreached none h t = (rw (update_where-none _ (mark_paid now) s.invoices h), h)
        unreached (some x) h t = absurd cc

        booked :
            (c : Text)
            → c ≡ inv.currency
            → written_store inv pay c s ≡ captured_store inv pay inv.currency s
        booked c e = written_lem inv pay c s ∙ ap (λ (x : Text). captured_store inv pay x s) e

  reconcile_issued-Ensures :
      (invoice : ℕ) (s : Store) (inv : Invoice)
      → find (λ (x : Invoice). x.id == invoice) s.invoices ≡ some inv
      → inv.status ≡ InvoiceStatus.issued
      → Ensures (reconcile_issued i inv now) s (λ u. PaidDone invoice s) (Uncaptured invoice s)
  unfolding reconcile_issued get_payment_for_update
  reconcile_issued-Ensures invoice s inv fi st = Ensures-bind _ _ (
      Ensures-query _ _ (
        Ensures-or_throw _ _ (λ h. inr (refl, inr (inv, fi, inr (inl (refl, h)))))
          (λ pay fp.
            Ensures-throw_if _ _ _
              (λ t. inr (
                refl,
                inr (
                  inv,
                  fi,
                  inr (inr (inr (inr (pay, fp, inl (refl, other_text _ _ (ground (arith, t))))))),
                ),
              ))
              (λ l.
                Ensures-lifted _ _ (λ e h. inr (refl, inr (inv, fi, inr (inr (inl h)))))
                  (λ c h.
                    Ensures-throw_if _ _ _
                      (λ t. inr (
                        refl,
                        inr (
                          inv,
                          fi,
                          inr (inr (inr (inl (refl, other_currency c _ h (ground (arith, t)))))),
                        ),
                      ))
                      (λ t.
                        Ensures-throw_if _ _ _
                          (λ a. inr (
                            refl,
                            inr (
                              inv,
                              fi,
                              inr (
                                  inr (
                                    inr (
                                      inr (
                                        pay,
                                        fp,
                                        inr (refl, other_amount _ _ (ground (arith, a))),
                                      )))),
                            ),
                          ))
                          (λ a.
                            capture-Ensures invoice s inv pay fi st fp (link_agrees _ _ l)
                              (cc (h, text_eq_sound c inv.currency (ground arith)))
                              (eqb_ℤ_sound _ _ (ground arith)))))))))

  -- `ReconcileStripePaymentPaid`, with any statements failed: on success the invoice was paid before and
  -- nothing is changed, or it was issued, the charge has the payment's amount, the invoice's currency
  -- and its link if it names one, and the invoice is marked paid, with one ledger entry over the whole
  -- amount and one audit entry, the payment's ids of Stripe are trimmed, those that it lacks are
  -- filled in, and nothing else is written. An error came from a failed statement; or nothing is
  -- written, and the invoice is missing or not issued, it has no payment, or the charge has a currency
  -- that is not accepted, or another link, currency or amount.
  pub reconcile_payment_paid-Ensures :
      (invoice : ℕ) (s : Store)
      → Ensures
          (reconcile_payment_paid i invoice now)
          s
          (λ u. PaidDone invoice s)
          (Uncaptured invoice s)
  unfolding reconcile_payment_paid get_invoice_by_id_for_update
  reconcile_payment_paid-Ensures invoice s = Ensures-bind _ _ (
      Ensures-query _ _ (
        Ensures-or_throw _ _ (λ h. inr (refl, inl (refl, h)))
          (λ inv fi.
            Ensures-if _ _ _ (λ t. Ensures-pure _ (inl (inv, fi, status_sound _ _ t, refl)))
              (λ t.
                Ensures-if _ _ _
                  (λ u. reconcile_issued-Ensures invoice s inv fi (status_sound _ _ u))
                  (λ u. Ensures-throw _ (
                    inr (
                      refl,
                      inr (inv, fi, inl (refl, inl (other_status _ _ t, other_status _ _ u))),
                    )))))))
