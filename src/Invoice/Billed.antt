-- ===== src/Invoice/Billed.antt =====
-- What the billing loop adds up: the invoice's total is the exact sum of its lines, each rounded half
-- up to the minor unit, and the lines are those of the selected entries.
use consulting_revenue_platf.Prelude.{
  ℕ, ◌+◌, ◌*◌, ◌/◌, ◌<◌, ◌≡◌, refl, sym, ap, ◌∙◌, ◌⊎◌, inl, inr, some, ◌++◌, Bool, true, false,
  ◌&&◌, not, List, [], ◌∷◌, ◌==◌, if◌then◌else◌, All, arith, update_where,
}
use mathlib.Core.Path.{subst}
use consulting_revenue_platf.Prelude.Int.{ℤ, pos, pos_part}
use consulting_revenue_platf.Prelude.Text.{Text, codes}
use consulting_revenue_platf.Int64.{two63}
use consulting_revenue_platf.Store.{
  TimeEntryStatus, TimeEntry, LineItem, Store, Error, sql_failed, line_amount_overflow,
  invoice_total_overflow, ok, err, Ensures, Ensures-lifted, Ensures-checked, Ensures-exec,
  Ensures-pure, Ensures-weaken, Settled,
}
use consulting_revenue_platf.TimeEntry.Transition.{is_entry}
use consulting_revenue_platf.Invoice.Amounts.{
  line_amount, add_line, is_negative_line, line_amount-cases, line_amount-err, add_line-err,
  add_line_exact,
}
use consulting_revenue_platf.Invoice.Generate.{
  hours_hundredths, line_of, insert_line, mark_invoiced, bill,
}

-- The CHECKs of time_entries on the amounts.
pub record IsPriced (e : TimeEntry) : Type 0 where
  pub minutes : ℕ
  pub rate : ℕ
  pub minutes_eq : e.minutes ≡ pos minutes
  pub rate_eq : e.hourly_rate_minor ≡ pos rate

-- An entry's amount, as whole numbers give it.
abbrev pub entry_amount : TimeEntry → ℕ
entry_amount e = (pos_part e.minutes * pos_part e.hourly_rate_minor + 30) / 60

abbrev pub bill_sum : List TimeEntry → ℕ
bill_sum [] = 0
bill_sum (e ∷ es) = entry_amount e + bill_sum es

-- The lines of an invoice, added up.
abbrev pub lines_total : ℕ → List LineItem → ℕ
lines_total invoice [] = 0
lines_total invoice (l ∷ ls) =
    (if l.invoice_id == invoice then pos_part l.line_total_minor else 0) + lines_total invoice ls

module _ (show_date : ℕ → Text) (line_id : ℕ → ℕ) (invoice_id org now : ℕ) where
  -- The columns of an entry that is billed.
  abbrev pub billed_entry : TimeEntry → TimeEntry
  billed_entry e = record e {
    invoice_id = some invoice_id;
    status = TimeEntryStatus.invoiced;
    updated_at = now;
  }

  -- The line of an entry.
  abbrev pub billed_line : TimeEntry → LineItem
  billed_line e = record {
    id = line_id e.id;
    invoice_id = invoice_id;
    organization_id = org;
    source_time_entry_id = some e.id;
    description = show_date e.work_date ++ codes " approved work";
    quantity_hundredths = pos_part (hours_hundredths e.minutes);
    unit_amount_minor = e.hourly_rate_minor;
    line_total_minor = pos (entry_amount e);
  }

  -- The lines, one for each entry, put in front one after the other.
  abbrev pub with_lines : List TimeEntry → List LineItem → List LineItem
  with_lines [] ls = ls
  with_lines (e ∷ es) ls = with_lines es (billed_line e ∷ ls)

  -- The entries, marked one after the other.
  abbrev pub all_invoiced : List TimeEntry → List TimeEntry → List TimeEntry
  all_invoiced [] rows = rows
  all_invoiced (e ∷ es) rows = all_invoiced es (update_where (is_entry org e.id) billed_entry rows)

  -- From the subtotal `n`.
  pub record Billed (es : List TimeEntry) (n : ℕ) (s : Store) (total : ℤ) (s' : Store)
      : Type 0 where
    pub total_eq : total ≡ pos (n + bill_sum es)
    pub bounded : n + bill_sum es < two63
    pub lines_eq :
        lines_total invoice_id s'.line_items ≡ lines_total invoice_id s.line_items + bill_sum es
    pub new_lines : s'.line_items ≡ with_lines es s.line_items
    pub entries_eq : s'.time_entries ≡ all_invoiced es s.time_entries
    pub invoices_eq : s'.invoices ≡ s.invoices

  step :
      (e : TimeEntry) (es : List TimeEntry) (n : ℕ) (s : Store) (line total : ℤ) (s' : Store)
      → line ≡ pos (entry_amount e)
      → Billed es
          (n + entry_amount e)
          (mark_invoiced show_date line_id invoice_id org now e.id (record s {
            line_items = line_of show_date line_id invoice_id org now e line ∷ s.line_items;
          }))
          total
          s'
      → Billed (e ∷ es) n s total s'
  step e es n s line total s' l b = record {
    total_eq = b.total_eq ∙ ap pos (omega arith);
    bounded = omega (arith, b.bounded);
    lines_eq = ground (arith, b.lines_eq);
    new_lines =
        b.new_lines
        ∙ ap (λ x. with_lines es (line_of show_date line_id invoice_id org now e x ∷ s.line_items))
            l;
    entries_eq = b.entries_eq;
    invoices_eq = b.invoices_eq;
  }

  amount_exact :
      (e : TimeEntry) (line : ℤ)
      → IsPriced e
      → line_amount e.minutes e.hourly_rate_minor ≡ ok line
      → ((line ≡ pos (entry_amount e)) × (entry_amount e < two63)) ⊎ (is_negative_line line ≡ true)
  amount_exact e line p h =
      rw (p.minutes_eq, p.rate_eq)
        (line_amount-cases p.minutes p.rate line (rw (p.minutes_eq, p.rate_eq) at h))

  -- Why an invoice is not billed: an amount that int64 does not hold, or a failed statement.
  abbrev pub NotBilled : Error → Type 0
  NotBilled e = (e ≡ line_amount_overflow) ⊎ (e ≡ invoice_total_overflow) ⊎ (e ≡ sql_failed)

  -- The insert of a line refuses a negative amount.
  line_inserted :
      (e : TimeEntry) (line : ℤ) (s : Store) (Q : Unit {0} → Store → Type 0) (b : Bool)
      → ((b && not (is_negative_line line)) ≡ true
          → Q tt (record s {
            line_items = line_of show_date line_id invoice_id org now e line ∷ s.line_items;
          }))
      → Settled Q
          (λ x t s'. NotBilled x)
          s
          (if b && not (is_negative_line line)
            then ok (
              tt,
              record s {
                line_items = line_of show_date line_id invoice_id org now e line ∷ s.line_items;
              },
            )
            else err sql_failed)
  line_inserted e line s Q b k = by_test (b && not (is_negative_line line)) k
    where
      by_test :
          (c : Bool)
          → (c ≡ true
              → Q tt (record s {
                line_items = line_of show_date line_id invoice_id org now e line ∷ s.line_items;
              }))
          → Settled Q
              (λ x t s'. NotBilled x)
              s
              (if c
                then ok (
                  tt,
                  record s {
                    line_items = line_of show_date line_id invoice_id org now e line ∷ s.line_items;
                  },
                )
                else err sql_failed)
      by_test true k = k refl
      by_test false k = inr (inr refl)

  -- The tables after one line.
  abbrev after_line : TimeEntry → ℤ → Store → Store
  after_line e line s =
      mark_invoiced show_date line_id invoice_id org now e.id (record s {
        line_items = line_of show_date line_id invoice_id org now e line ∷ s.line_items;
      })

  continue :
      (e : TimeEntry) (es : List TimeEntry) (n : ℕ) (s : Store) (line next : ℤ)
      → n < two63
      → IsPriced e
      → line_amount e.minutes e.hourly_rate_minor ≡ ok line
      → add_line (pos n) line ≡ ok next
      → is_negative_line line ≡ false
      → (n + entry_amount e < two63
          → Ensures
              (bill show_date line_id invoice_id org now es (pos (n + entry_amount e)))
              (after_line e line s)
              (Billed es (n + entry_amount e) (after_line e line s))
              (λ x b s'. NotBilled x))
      → Ensures
          (bill show_date line_id invoice_id org now es next)
          (after_line e line s)
          (Billed (e ∷ es) n s)
          (λ x b s'. NotBilled x)
  continue e es n s line next hn p h k t ih = elim (amount_exact e line p h) [
    | inr neg ↦ absurd (cc (t, neg))
    | inl (l, bound) ↦
        let (nx, fits) =
          add_line_exact n (entry_amount e) next hn bound
            (subst (λ x. add_line (pos n) x ≡ ok next) l k) in
        subst
          (λ x.
            Ensures (bill show_date line_id invoice_id org now es x) (after_line e line s)
              (Billed (e ∷ es) n s) (λ y b s'. NotBilled y))
          (sym nx)
          (Ensures-weaken _ (λ total s' b. step e es n s line total s' l b) (λ x b s' w. w)
            (ih fits))
  ]

  pub bill-Ensures :
      (es : List TimeEntry) (n : ℕ) (s : Store)
      → All IsPriced es
      → n < two63
      → Ensures
          (bill show_date line_id invoice_id org now es (pos n))
          s
          (Billed es n s)
          (λ e b s'. NotBilled e)
  unfolding bill
  bill-Ensures [] n s ps hn = Ensures-pure (pos n) (record {
    total_eq = ap pos (omega arith);
    bounded = omega (arith, hn);
    lines_eq = omega arith;
    new_lines = refl;
    entries_eq = refl;
    invoices_eq = refl;
  })
  bill-Ensures (e ∷ es) n s ps hn =
      Ensures-lifted _ _ (λ x h. inl (line_amount-err _ _ x h))
        (λ line h.
          Ensures-lifted _ _ (λ x k. inr (inl (add_line-err _ _ x k)))
            (λ next k. Ensures-checked (insert_line show_date line_id invoice_id org now e line) _ (
              line_inserted e line s _ _ (λ t.
                Ensures-exec (mark_invoiced show_date line_id invoice_id org now e.id) _ (
                  continue e es n s line next hn ps.0 h k (ground (arith, t))
                    (λ fits. bill-Ensures es (n + entry_amount e) _ ps.1 fits))))))
