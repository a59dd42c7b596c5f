-- ===== src/Invoice/Generate.antt =====
-- `GenerateInvoiceFromApprovedEntries` of internal/repo/invoice_generation.go. The id of the invoice,
-- the ids of its lines (one for each entry) and the text of a date are arguments.
use consulting_revenue_platf.Prelude.{
  ℕ, Bool, true, false, ◌&&◌, ◌||◌, not, Option, none, some, List, [], ◌∷◌, ◌++◌, ◌==◌, ltb, leb,
  if◌then◌else◌, select, update_where, delete_where,
}
use consulting_revenue_platf.Prelude.Int.{ℤ, pos, pos_part, ltb_ℤ}
use consulting_revenue_platf.Prelude.Text.{Text, codes}
use consulting_revenue_platf.Int64.{add64, mul64, quot}
use consulting_revenue_platf.Store.{
  TimeEntryStatus, TimeEntry, Invoice, LineItem, Store, sql_failed, no_eligible_time_entries,
  Result, ok, err, Tx, ◌>>=◌, ◌>>◌, stmt, query, exec, lift, pure, throw, Db, run_in_tx,
}
use consulting_revenue_platf.Money.Currency.{normalize_currency}
use consulting_revenue_platf.TimeEntry.Transition.{same_status, is_entry}
use consulting_revenue_platf.Invoice.Header.{
  is_invoice, allocate_next_invoice_number, draft_invoice, insert_invoice,
}
use consulting_revenue_platf.Invoice.Amounts.{line_amount, add_line}

-- `GenerateInvoiceParams`.
pub record GenerateParams : Type 0 where
  pub from_date : ℕ
  pub to_date : ℕ
  pub currency : Text
  pub due_at : Option ℕ

abbrev pub is_unbilled : Option ℕ → Bool
is_unbilled none = true
is_unbilled (some i) = false

-- The `WHERE` of the selection.
abbrev pub is_eligible : ℕ → ℕ → ℕ → TimeEntry → Bool
is_eligible org from_date to_date e =
    e.organization_id == org
    && same_status e.status TimeEntryStatus.approved
    && is_unbilled e.invoice_id
    && leb from_date e.work_date
    && leb e.work_date to_date

-- `ORDER BY work_date ASC, id ASC`.
abbrev pub comes_before : TimeEntry → TimeEntry → Bool
comes_before a b = ltb a.work_date b.work_date || a.work_date == b.work_date && leb a.id b.id

abbrev pub insert_ordered : TimeEntry → List TimeEntry → List TimeEntry
insert_ordered e [] = e ∷ []
insert_ordered e (x ∷ xs) =
    let rest = insert_ordered e xs in if comes_before e x then e ∷ x ∷ xs else x ∷ rest

unfoldable pub order_entries : List TimeEntry → List TimeEntry
order_entries [] = []
order_entries (e ∷ es) = insert_ordered e (order_entries es)

abbrev pub selected : ℕ → GenerateParams → Store → List TimeEntry
selected org p s = order_entries (select (is_eligible org p.from_date p.to_date) s.time_entries)

-- `formatHoursHundredths`, in hundredths.
unfoldable pub hours_hundredths : ℤ → ℤ
hours_hundredths minutes = quot (add64 (mul64 minutes (pos 100)) (pos 30)) 60

module _ (show_date : ℕ → Text) (line_id : ℕ → ℕ) (invoice_id org now : ℕ) where
  abbrev pub line_of : TimeEntry → ℤ → LineItem
  line_of e total = record {
    id = line_id e.id;
    invoice_id = invoice_id;
    organization_id = org;
    source_time_entry_id = some e.id;
    description = show_date e.work_date ++ codes " approved work";
    quantity_hundredths = pos_part (hours_hundredths e.minutes);
    unit_amount_minor = e.hourly_rate_minor;
    line_total_minor = total;
  }

  -- The `INSERT` of a line, with the CHECKs on its quantity and amounts.
  abbrev pub insert_line : TimeEntry → ℤ → Store → Result (Unit {0} × Store)
  insert_line e total s =
      if ltb_ℤ (pos 0) (hours_hundredths e.minutes)
        && not (ltb_ℤ e.hourly_rate_minor (pos 0))
        && not (ltb_ℤ total (pos 0))
      then ok (tt, record s { line_items = line_of e total ∷ s.line_items })
      else err sql_failed

  abbrev pub set_invoiced : TimeEntry → TimeEntry
  set_invoiced e = record e {
    invoice_id = some invoice_id;
    status = TimeEntryStatus.invoiced;
    updated_at = now;
  }

  abbrev pub mark_invoiced : ℕ → Store → Store
  mark_invoiced id s = record s {
    time_entries = update_where (is_entry org id) set_invoiced s.time_entries;
  }

  -- The billing loop.
  unfoldable pub bill : List TimeEntry → ℤ → Tx ℤ
  bill [] subtotal = pure subtotal
  bill (e ∷ es) subtotal = do
    total ← lift (line_amount e.minutes e.hourly_rate_minor)
    next ← lift (add_line subtotal total)
    stmt (insert_line e total)
    exec (mark_invoiced e.id)
    bill es next

  abbrev pub set_totals : ℤ → Invoice → Invoice
  set_totals subtotal i = record i {
    subtotal_minor = subtotal;
    tax_minor = pos 0;
    total_minor = subtotal;
    updated_at = now;
  }

  abbrev pub update_totals : ℤ → Store → Store
  update_totals subtotal s = record s {
    invoices = update_where (is_invoice org invoice_id) (set_totals subtotal) s.invoices;
  }

  abbrev pub delete_invoice : Store → Store
  delete_invoice s = record s { invoices = delete_where (is_invoice org invoice_id) s.invoices }

  -- After the selection.
  abbrev pub bill_selected : Invoice → List TimeEntry → Tx Invoice
  bill_selected i [] = exec delete_invoice >> throw no_eligible_time_entries
  bill_selected i (e ∷ es) = bill (e ∷ es) (pos 0) >>= λ subtotal.
      exec (update_totals subtotal)
      >> pure (record i { subtotal_minor = subtotal; total_minor = subtotal })

  -- `generateInvoiceFromApprovedEntriesTx`.
  unfoldable pub generate_tx : GenerateParams → Tx Invoice
  generate_tx p = do
    number ← allocate_next_invoice_number org
    i ← stmt (insert_invoice (draft_invoice invoice_id org number p.currency p.due_at now))
    rows ← query (selected org p)
    bill_selected i rows

  -- `GenerateInvoiceFromApprovedEntries`.
  unfoldable pub generate_invoice : GenerateParams → Db → Result Invoice × Db
  generate_invoice p d = elim (normalize_currency p.currency) [
    | err e ↦ (err e, d)
    | ok c ↦ run_in_tx (generate_tx (record p { currency = c })) d
  ]
