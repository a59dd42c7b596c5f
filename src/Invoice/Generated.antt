-- ===== src/Invoice/Generated.antt =====
-- What generating an invoice does, as one transaction.
use consulting_revenue_platf.Prelude.{
  ℕ, ◌+◌, ◌-◌, ◌≡◌, ◌≢◌, refl, sym, ap, ◌∙◌, ◌⊎◌, inl, inr, Option, none, Bool, true, false, List,
  [], ◌∷◌, if◌then◌else◌, All, Bool-cases, arith, select, update_where,
}
use consulting_revenue_platf.Prelude.Int.{ℤ, pos}
use consulting_revenue_platf.Prelude.Text.{Text}
use consulting_revenue_platf.Store.{
  TimeEntry, InvoiceStatus, Invoice, Store, Error, sql_failed, unsupported_currency,
  no_eligible_time_entries, Result, ok, err, Db, query, ◌>>=◌, Ensures, Ensures-query,
  Ensures-checked, Ensures-exec, Ensures-pure, Ensures-throw, Ensures-bind, Ensures-weaken, Settled,
  Outcome, run_in_tx, run_in_tx-Outcome,
}
use consulting_revenue_platf.Money.Currency.{normalize_currency, normalize_currency-err}
use consulting_revenue_platf.Invoice.Header.{
  is_invoice, next_number, bump, number_taken, draft_invoice, insert_invoice,
  allocate_next_invoice_number,
}
use consulting_revenue_platf.Invoice.Generate.{
  set_totals, GenerateParams, insert_ordered, order_entries, selected, comes_before, update_totals,
  delete_invoice, bill_selected, generate_tx, generate_invoice,
}
use consulting_revenue_platf.Invoice.Billed.{
  Billed, IsPriced, bill_sum, lines_total, with_lines, all_invoiced, NotBilled, bill-Ensures,
}

-- The selection takes rows of the table.
All-select :
    (p : TimeEntry → Bool) (es : List TimeEntry) → All IsPriced es → All IsPriced (select p es)
All-select p [] h = tt
All-select p (e ∷ es) h = elim (Bool-cases (p e)) [
  | inl t ↦ rw t (h.0, All-select p es h.1)
  | inr t ↦ rw t (All-select p es h.1)
]

All-insert_ordered :
    (e : TimeEntry) (es : List TimeEntry)
    → IsPriced e
    → All IsPriced es
    → All IsPriced (insert_ordered e es)
All-insert_ordered e [] p h = (p, tt)
All-insert_ordered e (x ∷ es) p h = elim (Bool-cases (comes_before e x)) [
  | inl t ↦ rw t (p, h)
  | inr t ↦ rw t (h.0, All-insert_ordered e es p h.1)
]

All-order_entries : (es : List TimeEntry) → All IsPriced es → All IsPriced (order_entries es)
unfolding order_entries
All-order_entries [] h = tt
All-order_entries (e ∷ es) h = All-insert_ordered e _ h.0 (All-order_entries es h.1)

zero_plus : (n : ℕ) → 0 + n ≡ n
zero_plus n = omega arith

module _ (show_date : ℕ → Text) (line_id : ℕ → ℕ) (invoice_id org now : ℕ) where
  -- The row of the invoice, and its totals once it is billed.
  abbrev pub drafted_row : ℕ → Text → Option ℕ → Invoice
  drafted_row number currency due = record {
    id = invoice_id;
    organization_id = org;
    invoice_number = number;
    status = InvoiceStatus.draft;
    currency = currency;
    subtotal_minor = pos 0;
    tax_minor = pos 0;
    total_minor = pos 0;
    issued_at = none;
    due_at = due;
    updated_at = now;
  }

  abbrev pub totalled : ℕ → Invoice → Invoice
  totalled n i = record i {
    subtotal_minor = pos n;
    tax_minor = pos 0;
    total_minor = pos n;
    updated_at = now;
  }

  -- The invoice covers the selected entries, all of them and no others.
  pub record Generated (p : GenerateParams) (c : Text) (s : Store) (i : Invoice) (s' : Store)
      : Type 0 where
    pub selected_some : selected org p s ≢ []
    pub total_eq : i.total_minor ≡ pos (bill_sum (selected org p s))
    pub lines_eq :
        lines_total invoice_id s'.line_items
        ≡ lines_total invoice_id s.line_items + bill_sum (selected org p s)
    pub new_lines :
        s'.line_items
        ≡ with_lines show_date line_id invoice_id org now (selected org p s) s.line_items
    pub entries_eq :
        s'.time_entries
        ≡ all_invoiced show_date line_id invoice_id org now (selected org p s) s.time_entries
    pub invoices_eq :
        s'.invoices
        ≡ update_where (is_invoice org invoice_id) (totalled (bill_sum (selected org p s))) (
            drafted_row (next_number org (bump org s.invoice_sequences) - 1) c p.due_at
            ∷ s.invoices)
    pub number_eq : i.invoice_number ≡ next_number org (bump org s.invoice_sequences) - 1

  abbrev pub NotGenerated : GenerateParams → Store → Error → Type 0
  NotGenerated p s e =
      ((e ≡ no_eligible_time_entries) × (selected org p s ≡ []))
      ⊎ NotBilled show_date line_id invoice_id org now e

  module _ (p : GenerateParams) (s : Store) (priced : All IsPriced s.time_entries) where
    abbrev draft : Invoice
    draft =
        draft_invoice invoice_id org (next_number org (bump org s.invoice_sequences) - 1) p.currency
          p.due_at now

    abbrev drafted : Store
    drafted = record s {
      invoice_sequences = bump org s.invoice_sequences;
      invoices = draft ∷ s.invoices;
    }

    stored :
        (total : ℤ) (es : List TimeEntry) (s' : Store)
        → Billed show_date line_id invoice_id org now es 0 drafted total s'
        → update_where
            (is_invoice org invoice_id)
            (set_totals show_date line_id invoice_id org now total)
            s'.invoices
          ≡ update_where
              (is_invoice org invoice_id)
              (set_totals show_date line_id invoice_id org now (pos (bill_sum es)))
              (draft ∷ s.invoices)
    stored total es s' b =
        let e : total ≡ pos (bill_sum es) = b.total_eq ∙ ap pos (zero_plus (bill_sum es)) in
        ap
          (λ x.
            update_where (is_invoice org invoice_id)
              (set_totals show_date line_id invoice_id org now total) x)
          b.invoices_eq
        ∙ ap
            (λ x.
              update_where (is_invoice org invoice_id)
                (set_totals show_date line_id invoice_id org now x) (draft ∷ s.invoices))
            e

    selected_billed :
        (es : List TimeEntry)
        → selected org p s ≡ es
        → All IsPriced es
        → Ensures
            (bill_selected show_date line_id invoice_id org now draft es)
            drafted
            (Generated p p.currency s)
            (λ e b s'. NotGenerated p s e)
    selected_billed [] h ps =
        Ensures-exec (delete_invoice show_date line_id invoice_id org now) _
          (Ensures-throw _ (inl (refl, h)))
    selected_billed (e ∷ es) h ps = Ensures-bind _ _ (
        Ensures-weaken _
          (λ total s' b. Ensures-exec (update_totals show_date line_id invoice_id org now total) _ (
            Ensures-pure _ (record {
              selected_some = λ n. cc (h, n);
              total_eq =
                  b.total_eq
                  ∙ (ap pos (zero_plus (bill_sum (e ∷ es))) ∙ ap (λ x. pos (bill_sum x)) (sym h));
              lines_eq = rw h b.lines_eq;
              new_lines = rw h b.new_lines;
              entries_eq = rw h b.entries_eq;
              invoices_eq =
                  stored total (e ∷ es) s' b
                  ∙ ap
                      (λ x.
                        update_where (is_invoice org invoice_id)
                          (set_totals show_date line_id invoice_id org now (pos (bill_sum x)))
                          (draft ∷ s.invoices))
                      (sym h);
              number_eq = refl;
            })))
          (λ x b s' w. inr w)
          (bill-Ensures show_date line_id invoice_id org now (e ∷ es) 0 drafted ps (omega arith)))

    generate_tx-Ensures :
        Ensures
          (generate_tx show_date line_id invoice_id org now p)
          s
          (Generated p p.currency s)
          (λ e b s'. NotGenerated p s e)
    unfolding generate_tx allocate_next_invoice_number
    generate_tx-Ensures = Ensures-checked _ _ (
        Ensures-checked (insert_invoice draft) _ (
          inserted
            (number_taken org (next_number org (bump org s.invoice_sequences) - 1) s.invoices)))
      where
        inserted :
            (b : Bool)
            → Settled
                (λ i s'.
                  Ensures
                    (query (selected org p) >>= λ rows.
                      bill_selected show_date line_id invoice_id org now i rows)
                    s'
                    (Generated p p.currency s)
                    (λ e b s'. NotGenerated p s e))
                (λ e b s'. NotGenerated p s e)
                (record s { invoice_sequences = bump org s.invoice_sequences })
                (if b then err sql_failed else ok (draft, drafted))
        inserted true = inr (inr (inr refl))
        inserted false = Ensures-query (selected org p) _ (
            selected_billed (selected org p s) refl
              (All-order_entries _ (All-select _ s.time_entries priced)))

  -- The currency is stored normalized, which the selection does not look at.
  normalized :
      (p : GenerateParams) (d : Db)
      → All IsPriced d.store.time_entries
      → (r : Result Text) → normalize_currency p.currency ≡ r
      → Outcome
          (λ i s'. (c : Text) × (normalize_currency p.currency ≡ ok c) × Generated p c d.store i s')
          (λ e b s'.
            NotGenerated p d.store e
            ⊎ ((e ≡ unsupported_currency)
                × (normalize_currency p.currency ≡ err unsupported_currency)))
          d
          (elim r [
            | err e ↦ (err e, d)
            | ok c ↦
                run_in_tx
                  (generate_tx show_date line_id invoice_id org now (record p { currency = c }))
                  d
          ])
  normalized p d priced (ok c) h = run_in_tx-Outcome _ _ _ d (
      Ensures-weaken _
        (λ i s' g. (
          c,
          h,
          record {
            selected_some = g.selected_some;
            total_eq = g.total_eq;
            lines_eq = g.lines_eq;
            new_lines = g.new_lines;
            entries_eq = g.entries_eq;
            invoices_eq = g.invoices_eq;
            number_eq = g.number_eq;
          },
        ))
        (λ e b s' w. inl w) (generate_tx-Ensures (record p { currency = c }) d.store priced))
  normalized p d priced (err e) h =
      let u : e ≡ unsupported_currency = normalize_currency-err p.currency e h in
      (refl, inr (false, d.store, inr (u, h ∙ ap (λ x. err x) u)))

  -- `GenerateInvoiceFromApprovedEntries`, with any calls of the driver failed, where the amounts of
  -- entries are not negative. On success some approved entry of the dates was not yet invoiced; all
  -- such entries, in order of date and id, are set to invoiced, on this invoice, and get one line each, at
  -- their rate and amount; one invoice is added, with the next number; and its total, stored and returned, and what is added to its lines, is the exact sum of
  -- minutes times rate over sixty, each rounded half up: no int64 has wrapped around. Else the tables
  -- are as they were, and no entry was eligible, the currency is not accepted, an amount does not fit,
  -- or a statement failed.
  pub generate_invoice-Outcome :
      (p : GenerateParams) (d : Db)
      → All IsPriced d.store.time_entries
      → Outcome
          (λ i s'. (c : Text) × (normalize_currency p.currency ≡ ok c) × Generated p c d.store i s')
          (λ e b s'.
            NotGenerated p d.store e
            ⊎ ((e ≡ unsupported_currency)
                × (normalize_currency p.currency ≡ err unsupported_currency)))
          d
          (generate_invoice show_date line_id invoice_id org now p d)
  unfolding generate_invoice
  generate_invoice-Outcome p d priced = normalized p d priced (normalize_currency p.currency) refl
