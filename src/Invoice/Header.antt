-- ===== src/Invoice/Header.antt =====
-- The invoice header (internal/repo/invoices.go): numbers, drafts and sending.
use consulting_revenue_platf.Prelude.{
  ℕ, ◌+◌, ◌-◌, Bool, false, ◌&&◌, ◌||◌, Option, none, some, List, [], ◌∷◌, ◌==◌, if◌then◌else◌,
  find, update_where,
}
use consulting_revenue_platf.Prelude.Int.{pos}
use consulting_revenue_platf.Prelude.Text.{Text}
use consulting_revenue_platf.Store.{
  InvoiceStatus, Invoice, InvoiceSequence, Store, sql_failed, invoice_not_found,
  invoice_not_sendable, LedgerEvent, LedgerEntity, Result, ok, err, Tx, ◌>>=◌, ◌>>◌, stmt, query,
  or_throw, pure, throw, Db, run_in_tx, auto,
}
use consulting_revenue_platf.Money.Currency.{normalize_currency}
use consulting_revenue_platf.Ledger.{insert_ledger_entry_tx}

abbrev pub invoice_status_code : InvoiceStatus → ℕ
invoice_status_code InvoiceStatus.draft = 0
invoice_status_code InvoiceStatus.issued = 1
invoice_status_code InvoiceStatus.void = 2
invoice_status_code InvoiceStatus.paid = 3

abbrev pub same_invoice_status : InvoiceStatus → InvoiceStatus → Bool
same_invoice_status a b = invoice_status_code a == invoice_status_code b

-- `WHERE id = $1 AND organization_id = $2`, and with the status.
abbrev pub is_invoice : ℕ → ℕ → Invoice → Bool
is_invoice org id i = i.id == id && i.organization_id == org

abbrev pub is_invoice_in : InvoiceStatus → ℕ → ℕ → Invoice → Bool
is_invoice_in status org id i = is_invoice org id i && same_invoice_status i.status status

-- The number that the sequence of an organization gives next.
abbrev pub next_number : ℕ → List InvoiceSequence → ℕ
next_number org [] = 1
next_number org (r ∷ rs) = if r.organization_id == org then r.next_number else next_number org rs

-- `INSERT ... VALUES ($1, 2, NOW()) ON CONFLICT DO UPDATE SET next_number = next_number + 1`.
abbrev pub bump : ℕ → List InvoiceSequence → List InvoiceSequence
bump org [] = record { organization_id = org; next_number = 2 } ∷ []
bump org (r ∷ rs) =
    if r.organization_id == org
    then record r { next_number = r.next_number + 1 } ∷ rs
    else r ∷ bump org rs

-- `AllocateNextInvoiceNumber`.
unfoldable pub allocate_next_invoice_number : ℕ → Tx ℕ
allocate_next_invoice_number org = stmt (λ s.
    let rows = bump org s.invoice_sequences in
    ok (next_number org rows - 1, record s { invoice_sequences = rows }))

abbrev pub draft_invoice : ℕ → ℕ → ℕ → Text → Option ℕ → ℕ → Invoice
draft_invoice id org number currency due now = record {
  id = id;
  organization_id = org;
  invoice_number = number;
  status = InvoiceStatus.draft;
  currency = currency;
  subtotal_minor = pos 0;
  tax_minor = pos 0;
  total_minor = pos 0;
  issued_at = none;
  due_at = due;
  updated_at = now;
}

-- `UNIQUE (organization_id, invoice_number)`.
abbrev pub number_taken : ℕ → ℕ → List Invoice → Bool
number_taken org number [] = false
number_taken org number (i ∷ is) =
    i.organization_id == org && i.invoice_number == number || number_taken org number is

-- `INSERT INTO invoices ... RETURNING`, with the id that the database gives.
abbrev pub insert_invoice : Invoice → Store → Result (Invoice × Store)
insert_invoice i s =
    if number_taken i.organization_id i.invoice_number s.invoices
    then err sql_failed
    else ok (i, record s { invoices = i ∷ s.invoices })

-- The transaction of `CreateDraftInvoice`.
unfoldable pub create_draft_tx : ℕ → ℕ → Text → Option ℕ → ℕ → Tx Invoice
create_draft_tx new_id org currency due now = do
  number ← allocate_next_invoice_number org
  stmt (insert_invoice (draft_invoice new_id org number currency due now))

-- `CreateDraftInvoice`.
unfoldable pub create_draft_invoice : ℕ → ℕ → Text → Option ℕ → ℕ → Db → Result Invoice × Db
create_draft_invoice new_id org currency due now d = elim (normalize_currency currency) [
  | err e ↦ (err e, d)
  | ok c ↦ run_in_tx (create_draft_tx new_id org c due now) d
]

-- `COALESCE(issued_at, NOW())`.
abbrev pub coalesce : Option ℕ → ℕ → Option ℕ
coalesce none now = some now
coalesce (some t) now = some t

abbrev pub issue : ℕ → Invoice → Invoice
issue now i = record i {
  status = InvoiceStatus.issued;
  issued_at = coalesce i.issued_at now;
  updated_at = now;
}

abbrev pub issued_row : ℕ → Option Invoice → Option Invoice
issued_row now none = none
issued_row now (some i) = some (issue now i)

-- The `UPDATE ... WHERE ... AND status = 'draft' RETURNING` of `sendInvoiceTx`.
abbrev pub update_issued : ℕ → ℕ → ℕ → Store → Result (Option Invoice × Store)
update_issued org id now s = ok (
  issued_row now (find (is_invoice_in InvoiceStatus.draft org id) s.invoices),
  record s {
    invoices = update_where (is_invoice_in InvoiceStatus.draft org id) (issue now) s.invoices;
  },
)

-- What `sendInvoiceTx` does with a row that was issued, and when there was none.
unfoldable pub record_issued : Invoice → Tx Invoice
record_issued i = do
  insert_ledger_entry_tx i.organization_id LedgerEvent.invoice_issued LedgerEntity.invoice i.id
      i.total_minor i.currency
  pure i

unfoldable pub already_issued : ℕ → ℕ → Tx Invoice
already_issued org id = do
  row ← query (λ s. find (is_invoice org id) s.invoices)
  i ← or_throw row invoice_not_found
  if same_invoice_status i.status InvoiceStatus.issued then pure i else throw invoice_not_sendable

abbrev pub sent : ℕ → ℕ → Option Invoice → Tx Invoice
sent org id (some i) = record_issued i
sent org id none = already_issued org id

-- `sendInvoiceTx`.
unfoldable pub send_invoice_tx : ℕ → ℕ → ℕ → Tx Invoice
send_invoice_tx org id now = do row ← stmt (update_issued org id now); sent org id row

-- `SendInvoice`.
unfoldable pub send_invoice : ℕ → ℕ → ℕ → Db → Result Invoice × Db
send_invoice org id now = run_in_tx (send_invoice_tx org id now)

-- `GetInvoice`.
unfoldable pub get_invoice : ℕ → ℕ → Db → Result Invoice × Db
get_invoice org id =
    auto
      (query (λ s. find (is_invoice org id) s.invoices) >>= λ row. or_throw row invoice_not_found)

-- `GetInvoiceByIDForUpdate`.
unfoldable pub get_invoice_by_id_for_update : ℕ → Tx Invoice
get_invoice_by_id_for_update id =
    query (λ s. find (λ (i : Invoice). i.id == id) s.invoices) >>= λ row.
    or_throw row invoice_not_found

-- `getInvoiceForUpdate` and `GetInvoiceForUpdate`.
unfoldable pub get_invoice_for_update : ℕ → ℕ → Tx Invoice
get_invoice_for_update org id =
    query (λ s. find (is_invoice org id) s.invoices) >>= λ row. or_throw row invoice_not_found
