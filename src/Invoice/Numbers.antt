-- ===== src/Invoice/Numbers.antt =====
-- Invoice numbers: for each organization they are distinct and below the sequence's next number, so
-- the UNIQUE constraint is never met and the numbers have no gaps.
use consulting_revenue_platf.Prelude.{
  ℕ, suc, ◌-◌, ◌<◌, ◌≡◌, refl, ap, ◌∙◌, inr, false, Option, List, [], ◌∷◌, ◌==◌, if◌then◌else◌, All,
  All-map, arith,
}
use consulting_revenue_platf.Prelude.Text.{Text}
use consulting_revenue_platf.Store.{
  Invoice, InvoiceSequence, Store, unsupported_currency, Result, ok, err, Db, Ensures,
  Ensures-checked, Ensures-stmt, Outcome, run_in_tx-Outcome, run_in_tx, Ensures-weaken,
}
use consulting_revenue_platf.Money.Currency.{normalize_currency, normalize_currency-err}
use consulting_revenue_platf.Invoice.Header.{
  next_number, bump, number_taken, draft_invoice, allocate_next_invoice_number, create_draft_tx,
  create_draft_invoice,
}

abbrev pub Distinct : List Invoice → Type 0
Distinct [] = Unit
Distinct (i ∷ is) = (number_taken i.organization_id i.invoice_number is ≡ false) × Distinct is

abbrev pub IsBelow : List InvoiceSequence → Invoice → Type 0
IsBelow rows i = i.invoice_number < next_number i.organization_id rows

pub record IsNumbered (s : Store) : Type 0 where
  pub below : All (IsBelow s.invoice_sequences) s.invoices
  pub distinct : Distinct s.invoices

-- A bump adds one to the organization's own number, and to no other.
pub next_number-bump :
    (o org : ℕ) (rows : List InvoiceSequence)
    → next_number o (bump org rows)
      ≡ (if o == org then suc (next_number org rows) else next_number o rows)
next_number-bump o org [] = ground arith
next_number-bump o org (r ∷ rows) = ground (arith, next_number-bump o org rows)

allocated :
    (org : ℕ) (rows : List InvoiceSequence)
    → next_number org (bump org rows) - 1 ≡ next_number org rows
allocated org rows = ground (arith, next_number-bump org org rows)

IsBelow-bump :
    (org : ℕ) (rows : List InvoiceSequence) (i : Invoice)
    → IsBelow rows i
    → IsBelow (bump org rows) i
IsBelow-bump org rows i h = ground (arith, next_number-bump i.organization_id org rows)

-- No invoice has the number that comes next.
next_free :
    (org n : ℕ) (rows : List InvoiceSequence) (is : List Invoice)
    → All (IsBelow rows) is
    → n ≡ next_number org rows
    → number_taken org n is ≡ false
next_free org n rows [] h e = refl
next_free org n rows (i ∷ is) h e = ground (arith, next_free org n rows is h.1 e)

-- What a new draft is, and what it leaves.
abbrev pub Numbered : ℕ → Store → Invoice → Store → Type 0
Numbered org s i s' =
    IsNumbered s'
    × (i.invoice_number ≡ next_number org s.invoice_sequences)
    × (next_number org s'.invoice_sequences ≡ suc (next_number org s.invoice_sequences))
    × (s'.invoices ≡ i ∷ s.invoices)

module _ (id org : ℕ) (due : Option ℕ) (now : ℕ) (s : Store) (h : IsNumbered s) where
  abbrev drafted : Text → Invoice
  drafted c = draft_invoice id org (next_number org s.invoice_sequences) c due now

  abbrev drafted_store : Text → Store
  drafted_store c = record s {
    invoice_sequences = bump org s.invoice_sequences;
    invoices = drafted c ∷ s.invoices;
  }

  drafted-Numbered : (c : Text) → Numbered org s (drafted c) (drafted_store c)
  drafted-Numbered c = (
    record {
      below = (
        ground (arith, next_number-bump org org s.invoice_sequences),
        All-map _ _ s.invoices (IsBelow-bump org s.invoice_sequences) h.below,
      );
      distinct = (next_free org _ s.invoice_sequences s.invoices h.below refl, h.distinct);
    },
    refl,
    ground (arith, next_number-bump org org s.invoice_sequences),
    refl,
  )

  create_draft_tx-Ensures :
      (c : Text) → Ensures (create_draft_tx id org c due now) s (Numbered org s) (λ e b s'. ⊥)
  unfolding create_draft_tx allocate_next_invoice_number
  create_draft_tx-Ensures c = Ensures-checked _ _ (
      Ensures-stmt _ (
        rw
          (
            allocated org s.invoice_sequences,
            next_free org _ s.invoice_sequences s.invoices h.below refl,
          )
          (drafted-Numbered c)))

normalized :
    (id org : ℕ) (currency : Text) (due : Option ℕ) (now : ℕ) (d : Db)
    → IsNumbered d.store
    → (r : Result Text) → normalize_currency currency ≡ r
    → Outcome
        (Numbered org d.store)
        (λ e b s.
          (e ≡ unsupported_currency) × (normalize_currency currency ≡ err unsupported_currency))
        d
        (elim r [ err e ↦ (err e, d) | ok c ↦ run_in_tx (create_draft_tx id org c due now) d ])
normalized id org currency due now d h (ok c) p = run_in_tx-Outcome _ _ _ d (
    Ensures-weaken _ (λ i s' q. q) (λ e b s' q. absurd q)
      (create_draft_tx-Ensures id org due now d.store h c))
normalized id org currency due now d h (err e) p =
    let u : e ≡ unsupported_currency = normalize_currency-err currency e p in
    (refl, inr (false, d.store, (u, p ∙ ap (λ x. err x) u)))

-- Creating a draft, with any calls of the driver failed: either the invoice has the number that was
-- next for its organization, the sequence moves on by one, and all numbers stay distinct; or the tables
-- are as they were, and, where no call failed, the currency was not accepted.
pub create_draft_invoice-Outcome :
    (id org : ℕ) (currency : Text) (due : Option ℕ) (now : ℕ) (d : Db)
    → IsNumbered d.store
    → Outcome
        (Numbered org d.store)
        (λ e b s.
          (e ≡ unsupported_currency) × (normalize_currency currency ≡ err unsupported_currency))
        d
        (create_draft_invoice id org currency due now d)
unfolding create_draft_invoice
create_draft_invoice-Outcome id org currency due now d h =
    normalized id org currency due now d h (normalize_currency currency) refl
