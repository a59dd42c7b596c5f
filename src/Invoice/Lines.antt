-- ===== src/Invoice/Lines.antt =====
-- `PatchInvoiceLineItems` of internal/repo/invoice_line_items.go. A new line's id is given with its
-- payload, as the database makes it.
use consulting_revenue_platf.Prelude.{
  ℕ, ◌+◌, ◌*◌, Bool, true, false, ◌&&◌, ◌||◌, not, Option, none, some, List, [], ◌∷◌, ◌==◌, ltb,
  if◌then◌else◌, count_where, update_where, delete_where,
}
use consulting_revenue_platf.Prelude.Int.{ℤ, pos, pos_part, ltb_ℤ}
use consulting_revenue_platf.Prelude.Text.{Text, trim_space}
use consulting_revenue_platf.Int64.{two63, add64, mul64}
use consulting_revenue_platf.Money.Decimal.{is_digit, parse_nat}
use consulting_revenue_platf.Store.{
  InvoiceStatus, Invoice, LineItem, Store, Result, ok, err, sql_failed, invoice_not_found,
  invoice_immutable, description_required, bad_quantity, negative_unit_amount, Tx, ◌>>=◌, ◌>>◌,
  stmt, query, exec, lift, pure, throw_if, Db, run_in_tx,
}
use consulting_revenue_platf.Invoice.Header.{
  is_invoice, same_invoice_status, get_invoice_for_update,
}
use consulting_revenue_platf.Invoice.Amounts.{compute_line_total}

-- `strings.SplitN(raw, ".", 2)`.
unfoldable pub split_dot : Text → Text × Option Text
split_dot [] = ([], none)
split_dot (c ∷ s) = let (w, f) = split_dot s in if c == b'.' then ([], some s) else (c ∷ w, f)

abbrev pub all_digits : Text → Bool
all_digits [] = true
all_digits (c ∷ s) = is_digit c && all_digits s

-- `^[0-9]+(?:\.[0-9]{1,2})?$`.
abbrev pub is_fraction : Option Text → Bool
is_fraction none = true
is_fraction (some []) = false
is_fraction (some (c ∷ [])) = is_digit c
is_fraction (some (c ∷ d ∷ [])) = is_digit c && is_digit d
is_fraction (some (c ∷ d ∷ x ∷ s)) = false

abbrev pub is_whole : Text → Bool
is_whole [] = false
is_whole (c ∷ s) = all_digits (c ∷ s)

-- The two digits after the point, the second one added if it is missing.
abbrev pub padded : Option Text → Text
padded none = b'0' ∷ []
padded (some (c ∷ [])) = c ∷ b'0' ∷ []
padded (some s) = s

-- A parsed quantity: the int64 of hundredths, and the value of the text that is stored.
pub record Quantity : Type 0 where
  pub hundredths : ℤ
  pub stored : ℕ

abbrev pub quantity_of : Option ℕ → Option ℕ → Result Quantity
quantity_of none f = err bad_quantity
quantity_of (some w) none = err bad_quantity
quantity_of (some w) (some f) =
    if not (ltb w two63) || w + f == 0
    then err bad_quantity
    else ok (record { hundredths = add64 (mul64 (pos w) (pos 100)) (pos f); stored = w * 100 + f })

-- `parseQuantityHundredths`.
unfoldable pub parse_quantity : Text → Result Quantity
unfolding split_dot parse_nat trim_space add64 mul64
parse_quantity raw =
    let (w, f) = split_dot (trim_space raw) in
    if is_whole w && is_fraction f
    then quantity_of (parse_nat 0 w) (parse_nat 0 (padded f))
    else err bad_quantity

-- `LineItemUpsert`: without an id a line is added, with the id that the database makes.
pub record LineItemUpsert : Type 0 where
  pub id : Option ℕ
  pub new_id : ℕ
  pub description : Text
  pub quantity : Text
  pub unit_amount_minor : ℤ

-- What is written of a line.
pub record LineValues : Type 0 where
  pub description : Text
  pub quantity : ℕ
  pub unit_amount : ℤ
  pub total : ℤ

abbrev pub is_blank_text : Text → Bool
is_blank_text [] = true
is_blank_text (c ∷ s) = false

-- The checks of a payload before its statement.
abbrev pub priced : Text → Quantity → ℤ → Result ℤ → Result LineValues
priced desc q unit (err e) = err e
priced desc q unit (ok total) =
    ok (record { description = desc; quantity = q.stored; unit_amount = unit; total = total })

abbrev pub quantified : Text → ℤ → Result Quantity → Result LineValues
quantified desc unit (err e) = err e
quantified desc unit (ok q) =
    if ltb_ℤ unit (pos 0)
    then err negative_unit_amount
    else priced desc q unit (compute_line_total q.hundredths unit)

unfoldable pub line_values : LineItemUpsert → Result LineValues
unfolding parse_quantity
line_values u =
    let desc = trim_space u.description in
    if is_blank_text desc
    then err description_required
    else quantified desc u.unit_amount_minor (parse_quantity u.quantity)

-- NUMERIC(12,2), and the CHECKs on the quantity and the amounts.
abbrev pub fits_line : LineValues → Bool
fits_line v =
    ltb v.quantity 1000000000000
    && ltb 0 v.quantity
    && not (ltb_ℤ v.unit_amount (pos 0))
    && not (ltb_ℤ v.total (pos 0))

abbrev pub set_line : LineValues → LineItem → LineItem
set_line v l = record l {
  description = v.description;
  quantity_hundredths = v.quantity;
  unit_amount_minor = v.unit_amount;
  line_total_minor = v.total;
}

module _ (org invoice_id : ℕ) where
  -- `WHERE id = $1 AND invoice_id = $2 AND organization_id = $3`.
  abbrev pub is_line : ℕ → LineItem → Bool
  is_line id l = l.id == id && l.invoice_id == invoice_id && l.organization_id == org

  abbrev pub remove_line : ℕ → Store → Store
  remove_line id s = record s { line_items = delete_where (is_line id) s.line_items }

  unfoldable pub remove_lines : List ℕ → Tx (Unit {0})
  remove_lines [] = pure tt
  remove_lines (id ∷ ids) = exec (remove_line id) >> remove_lines ids

  abbrev pub new_line : ℕ → LineValues → LineItem
  new_line id v = record {
    id = id;
    invoice_id = invoice_id;
    organization_id = org;
    source_time_entry_id = none;
    description = v.description;
    quantity_hundredths = v.quantity;
    unit_amount_minor = v.unit_amount;
    line_total_minor = v.total;
  }

  -- The `INSERT`, and the `UPDATE` with the number of rows that it affected. A value that breaks a
  -- CHECK fails an update only where there is a row.
  abbrev pub put_line : LineItemUpsert → LineValues → Store → Result (ℕ × Store)
  put_line u v s = elim u.id [
    | none ↦
        if fits_line v
        then ok (1, record s { line_items = new_line u.new_id v ∷ s.line_items })
        else err sql_failed
    | some id ↦
        if fits_line v || count_where (is_line id) s.line_items == 0
        then ok (
          count_where (is_line id) s.line_items,
          record s { line_items = update_where (is_line id) (set_line v) s.line_items },
        )
        else err sql_failed
  ]

  unfoldable pub upsert_lines : List LineItemUpsert → Tx (Unit {0})
  upsert_lines [] = pure tt
  upsert_lines (u ∷ us) = do
    v ← lift (line_values u)
    n ← stmt (put_line u v)
    throw_if (n == 0) invoice_not_found
    upsert_lines us

  -- `COALESCE(SUM(line_total_minor), 0)`, of amounts that a CHECK keeps from being negative.
  abbrev pub line_sum : List LineItem → ℕ
  line_sum [] = 0
  line_sum (l ∷ ls) =
      (if l.invoice_id == invoice_id && l.organization_id == org
        then pos_part l.line_total_minor
        else 0)
      + line_sum ls

  abbrev pub set_sum : ℕ → ℕ → Invoice → Invoice
  set_sum n now i = record i {
    subtotal_minor = pos n;
    tax_minor = pos 0;
    total_minor = pos n;
    updated_at = now;
  }

  -- `recomputeInvoiceTotals`: a sum that is no int64 cannot be scanned.
  unfoldable pub recompute_totals : ℕ → Tx (Unit {0})
  recompute_totals now = do
    n ← query (λ s. line_sum s.line_items)
    throw_if (not (ltb n two63)) sql_failed
    exec (λ s. record s {
      invoices = update_where (is_invoice org invoice_id) (set_sum n now) s.invoices;
    })

  -- The transaction of `PatchInvoiceLineItems`.
  unfoldable pub patch_lines_tx : List LineItemUpsert → List ℕ → ℕ → Tx Invoice
  patch_lines_tx upserts removes now = do
    i ← get_invoice_for_update org invoice_id
    throw_if (not (same_invoice_status i.status InvoiceStatus.draft)) invoice_immutable
    remove_lines removes
    upsert_lines upserts
    recompute_totals now
    get_invoice_for_update org invoice_id

  -- `PatchInvoiceLineItems`.
  unfoldable pub patch_invoice_line_items :
      List LineItemUpsert → List ℕ → ℕ → Db → Result Invoice × Db
  patch_invoice_line_items upserts removes now = run_in_tx (patch_lines_tx upserts removes now)
