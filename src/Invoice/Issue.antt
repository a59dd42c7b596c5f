-- ===== src/Invoice/Issue.antt =====
-- Sending an invoice: a draft is issued and booked in the ledger, once; a second send changes nothing.
use consulting_revenue_platf.Prelude.{
  ℕ, ◌≡◌, refl, ◌≢◌, ◌⊎◌, inl, inr, Option, none, some, find, update_where, update_where-none,
  update_where_ap, ap, List, arith,
}
use consulting_revenue_platf.Prelude.Text.{Text}
use consulting_revenue_platf.Store.{
  InvoiceStatus, Invoice, LedgerEvent, LedgerEntity, Store, Error, invoice_not_found,
  invoice_not_sendable, unsupported_currency, Db, ok, Ensures, Ensures-checked, Ensures-query,
  Ensures-found, Ensures-if, Ensures-pure, Ensures-throw, Ensures-lifted, Ensures-exec_last,
  Ensures-bind, Outcome, run_in_tx-Outcome,
}
use consulting_revenue_platf.Ledger.{append_ledger, insert_ledger_entry_tx}
use consulting_revenue_platf.Money.Currency.{normalize_currency, normalize_currency-err}
use consulting_revenue_platf.Invoice.Header.{
  is_invoice, is_invoice_in, coalesce, issue, issued_row, record_issued, already_issued, sent,
  send_invoice_tx, send_invoice,
}

module _ (org id now : ℕ) where
  -- The row of a draft once it is issued, column by column: an issue time that it had is kept.
  abbrev pub issued_invoice : Invoice → Invoice
  issued_invoice i = record i {
    status = InvoiceStatus.issued;
    issued_at = elim i.issued_at [ none ↦ some now | some t ↦ some t ];
    updated_at = now;
  }

  -- The draft was issued and booked; or it was issued before, and nothing is changed.
  abbrev pub Sent : Store → Invoice → Store → Type 0
  Sent s i s' =
      ((row : Invoice) × (find (is_invoice_in InvoiceStatus.draft org id) s.invoices ≡ some row)
        × (i ≡ issued_invoice row)
        × ((c : Text) × (normalize_currency i.currency ≡ ok c)
            × (s'
                ≡ append_ledger i.organization_id LedgerEvent.invoice_issued LedgerEntity.invoice
                    i.id i.total_minor c
                    (record s {
                      invoices =
                          update_where (is_invoice_in InvoiceStatus.draft org id) issued_invoice
                            s.invoices;
                    }))))
      ⊎ ((find (is_invoice_in InvoiceStatus.draft org id) s.invoices ≡ none)
          × (find (is_invoice org id) s.invoices ≡ some i)
          × (i.status ≡ InvoiceStatus.issued)
          × (s' ≡ s))

  -- Why it is not sent.
  abbrev pub NotSent : Store → Error → Type 0
  NotSent s e =
      ((e ≡ invoice_not_found) × (find (is_invoice org id) s.invoices ≡ none))
      ⊎ ((e ≡ invoice_not_sendable)
          × ((i : Invoice) × (find (is_invoice org id) s.invoices ≡ some i)
              × (i.status ≢ InvoiceStatus.issued)))
      ⊎ ((i : Invoice) × (find (is_invoice_in InvoiceStatus.draft org id) s.invoices ≡ some i)
          × (e ≡ unsupported_currency))

  issued_time : (o : Option ℕ) → coalesce o now ≡ elim o [ none ↦ some now | some t ↦ some t ]
  issued_time none = refl
  issued_time (some t) = refl

  issue_lem : (i : Invoice) → issue now i ≡ issued_invoice i
  issue_lem i =
      ap
        (λ (o : Option ℕ). record i {
          status = InvoiceStatus.issued;
          issued_at = o;
          updated_at = now;
        })
        (issued_time i.issued_at)

  issued_rows :
      (s : Store) (row : Invoice) (c : Text)
      → append_ledger row.organization_id LedgerEvent.invoice_issued LedgerEntity.invoice row.id
          row.total_minor c
          (record s {
            invoices =
                update_where (is_invoice_in InvoiceStatus.draft org id) (issue now) s.invoices;
          })
        ≡ append_ledger row.organization_id LedgerEvent.invoice_issued LedgerEntity.invoice row.id
            row.total_minor c
            (record s {
              invoices =
                  update_where (is_invoice_in InvoiceStatus.draft org id) issued_invoice s.invoices;
            })
  issued_rows s row c =
      ap
        (λ (rows : List Invoice).
          append_ledger row.organization_id LedgerEvent.invoice_issued LedgerEntity.invoice row.id
            row.total_minor c (record s { invoices = rows }))
        (update_where_ap _ (issue now) issued_invoice s.invoices issue_lem)

  sent-Ensures :
      (s : Store) (o : Option Invoice)
      → find (is_invoice_in InvoiceStatus.draft org id) s.invoices ≡ o
      → Ensures
          (sent org id (issued_row now o))
          (record s {
            invoices =
                update_where (is_invoice_in InvoiceStatus.draft org id) (issue now) s.invoices;
          })
          (Sent s)
          (λ e b s'. NotSent s e)
  unfolding record_issued insert_ledger_entry_tx already_issued
  sent-Ensures s (some row) h = Ensures-bind _ _ (
      Ensures-lifted _ _ (λ e p. inr (inr (row, h, normalize_currency-err _ e p)))
        (λ c p.
          Ensures-exec_last _
            (Ensures-pure _ (inl (row, h, issue_lem row, (c, p, issued_rows s row c))))))
  sent-Ensures s none h = rw (update_where-none _ (issue now) s.invoices h) (
      Ensures-query _ _ (
        Ensures-found _ _ _ (λ n. inl (refl, n))
          (λ i found.
            Ensures-if _ _ _ (λ t. Ensures-pure _ (inr (h, found, ground arith, refl)))
              (λ t. Ensures-throw _ (inr (inl (refl, (i, found, ground arith))))))))

  -- `SendInvoice`, with any calls of the driver failed: a draft is issued, keeps an earlier issue time,
  -- and is booked by one ledger entry over its total; an issued invoice is returned and nothing is
  -- written; and every error leaves the tables as they were, and is, where no call failed, for a
  -- missing invoice, one that is not issued, or a currency that the ledger does not accept.
  pub send_invoice-Outcome :
      (d : Db) → Outcome (Sent d.store) (λ e b s'. NotSent d.store e) d (send_invoice org id now d)
  unfolding send_invoice send_invoice_tx
  send_invoice-Outcome d = run_in_tx-Outcome _ _ _ d (
      Ensures-checked _ _ (
        sent-Ensures d.store (find (is_invoice_in InvoiceStatus.draft org id) d.store.invoices)
          refl))
