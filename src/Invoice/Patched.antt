-- ===== src/Invoice/Patched.antt =====
-- What a patch of line items does, as one transaction.
use consulting_revenue_platf.Prelude.Int.{pos, pos_part}
use consulting_revenue_platf.Prelude.{
  Option, none, ℕ, ◌+◌, ◌<◌, ◌≡◌, ◌⊎◌, Bool, true, false, ◌&&◌, some, List, [], ◌∷◌, ◌==◌, All,
  select, find, update_where, delete_where,
}
use consulting_revenue_platf.Int64.{two63}
use consulting_revenue_platf.Store.{
  InvoiceStatus, Invoice, LineItem, Store, Error, sql_failed, invoice_not_found, invoice_immutable,
  ok, err, Ensures,
}
use consulting_revenue_platf.Invoice.Header.{is_invoice, same_invoice_status}
use consulting_revenue_platf.Invoice.Lines.{
  LineItemUpsert, LineValues, line_values, is_line, new_line, set_line, upsert_lines, line_sum,
  set_sum,
}
use consulting_revenue_platf.Invoice.Relined.{KeptOrExact, is_other, Relined}

module _ (org invoice_id : ℕ) where
  abbrev pub DraftOf : Store → Type 0
  DraftOf s =
      (old : Invoice) × (find (is_invoice org invoice_id) s.invoices ≡ some old)
      × (same_invoice_status old.status InvoiceStatus.draft ≡ true)

  -- Why a patch fails: no such invoice or line, an invoice that is no draft, a payload that is refused,
  -- or a failed statement.
  abbrev pub NotPatched : Store → Error → Type 0
  NotPatched s e =
      (e ≡ invoice_not_found)
      ⊎ ((e ≡ invoice_immutable)
          × ((old : Invoice) × (find (is_invoice org invoice_id) s.invoices ≡ some old)
              × (same_invoice_status old.status InvoiceStatus.draft ≡ false)))
      ⊎ ((u : LineItemUpsert) × (line_values u ≡ err e))
      ⊎ (e ≡ sql_failed)

  -- The lines without those that are removed.
  abbrev pub without : List ℕ → List LineItem → List LineItem
  without [] ls = ls
  without (id ∷ ids) ls = without ids (delete_where (is_line org invoice_id id) ls)

  -- The lines once the values of a payload are written: a new line, or one that is changed.
  abbrev pub placed : Option ℕ → ℕ → LineValues → List LineItem → List LineItem
  placed none new_id v ls = new_line org invoice_id new_id v ∷ ls
  placed (some id) new_id v ls = update_where (is_line org invoice_id id) (set_line v) ls

  -- Each payload is accepted, and its values are written, in order.
  abbrev pub Written : List LineItemUpsert → List LineItem → List LineItem → Type 0
  Written [] ls ls' = ls' ≡ ls
  Written (u ∷ us) ls ls' =
      (v : LineValues) × (line_values u ≡ ok v) × Written us (placed u.id u.new_id v ls) ls'

  abbrev pub is_own : LineItem → Bool
  is_own l = l.invoice_id == invoice_id && l.organization_id == org

  abbrev total_of : List LineItem → ℕ
  total_of [] = 0
  total_of (l ∷ ls) = pos_part l.line_total_minor + total_of ls

  -- The sum of the totals of the invoice's lines.
  abbrev pub own_total : List LineItem → ℕ
  own_total ls = total_of (select is_own ls)

  module _ (s : Store) where
    abbrev Goes : List LineItemUpsert → Store → Type 0
    Goes us s' =
        Ensures (upsert_lines org invoice_id us) s'
          (λ u s''. Relined org invoice_id s s'' × Written us s'.line_items s''.line_items)
          (λ e b s''. NotPatched s e)

  module _ (us : List LineItemUpsert) (ids : List ℕ) (now : ℕ) (s : Store) where
    -- An invoice whose totals are written.
    abbrev pub totalled : ℕ → Invoice → Invoice
    totalled n i = record i {
      subtotal_minor = pos n;
      tax_minor = pos 0;
      total_minor = pos n;
      updated_at = now;
    }

    -- The invoice was a draft. Its lines are those that were there and those written, all exact; the
    -- stored totals are the sum of its lines, which is an int64; and nothing else has changed.
    pub record PatchedInvoice (i : Invoice) (s' : Store) : Type 0 where
      pub was_draft : DraftOf s
      pub others :
          select (is_other org invoice_id) s'.line_items
          ≡ select (is_other org invoice_id) s.line_items
      pub lines : All (KeptOrExact s.line_items) s'.line_items
      pub applied : Written us (without ids s.line_items) s'.line_items
      pub bounded : own_total s'.line_items < two63
      pub invoices_eq :
          s'.invoices
          ≡ update_where (is_invoice org invoice_id) (totalled (own_total s'.line_items)) s.invoices
      pub returned : find (is_invoice org invoice_id) s'.invoices ≡ some i
      pub rest : s' ≡ record s { line_items = s'.line_items; invoices = s'.invoices }

    with_sum : Store → Store
    with_sum x = record x {
      invoices =
          update_where (is_invoice org invoice_id)
            (set_sum org invoice_id (line_sum org invoice_id x.line_items) now) x.invoices;
    }
