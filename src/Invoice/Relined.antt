-- ===== src/Invoice/Relined.antt =====
-- The line items of an invoice that a patch changes, and the rows that it leaves.
use consulting_revenue_platf.Prelude.{
  ℕ, ◌≡◌, refl, ap, ◌∙◌, ◌⊎◌, inl, inr, Bool, true, false, ◌&&◌, not, List, [], ◌∷◌, ◌==◌, All,
  All-map, All-update_where, Bool-cases, select, update_where, delete_where, arith,
}
use consulting_revenue_platf.Store.{LineItem, Store}
use consulting_revenue_platf.Invoice.Lines.{LineValues, is_line, remove_line, new_line, set_line}
use consulting_revenue_platf.Invoice.Exact.{IsExact}

-- Rows that a statement does not name.
module _ {ℓ} {A : Type ℓ} (q p : A → Bool) (apart : (a : A) → p a ≡ true → q a ≡ false) where
  select-delete_where : (xs : List A) → select q (delete_where p xs) ≡ select q xs
  select-delete_where [] = refl
  select-delete_where (x ∷ xs) = elim (Bool-cases (p x)) [
    | inl t ↦ rw (t, apart x t) (select-delete_where xs)
    | inr t ↦ elim (Bool-cases (q x)) [
      | inl u ↦ rw (t, u) (ap (λ y. x ∷ y) (select-delete_where xs))
      | inr u ↦ rw (t, u) (select-delete_where xs)
    ]
  ]

  select-update_where :
      (f : A → A)
      → ((a : A) → p a ≡ true → q (f a) ≡ false)
      → (xs : List A) → select q (update_where p f xs) ≡ select q xs
  select-update_where f h [] = refl
  select-update_where f h (x ∷ xs) = elim (Bool-cases (p x)) [
    | inl t ↦ rw (t, apart x t, h x t) (select-update_where f h xs)
    | inr t ↦ elim (Bool-cases (q x)) [
      | inl u ↦ rw (t, u) (ap (λ y. x ∷ y) (select-update_where f h xs))
      | inr u ↦ rw (t, u) (select-update_where f h xs)
    ]
  ]

All-delete_where {ℓ κ} :
    {A : Type ℓ} (P : A → Type κ) (p : A → Bool) (xs : List A)
    → All P xs
    → All P (delete_where p xs)
All-delete_where P p [] h = tt
All-delete_where P p (x ∷ xs) h = elim (Bool-cases (p x)) [
  | inl t ↦ rw t (All-delete_where P p xs h.1)
  | inr t ↦ rw t (h.0, All-delete_where P p xs h.1)
]

abbrev pub Present : LineItem → List LineItem → Type 0
Present l [] = ⊥
Present l (x ∷ xs) = (l ≡ x) ⊎ Present l xs

abbrev pub ExactLine : LineItem → Type 0
ExactLine l = IsExact l.quantity_hundredths l.unit_amount_minor l.line_total_minor

-- A line was there before, or is priced exactly.
abbrev pub KeptOrExact : List LineItem → LineItem → Type 0
KeptOrExact old l = Present l old ⊎ ExactLine l

pub All-Present : (xs : List LineItem) → All (λ l. Present l xs) xs
All-Present [] = tt
All-Present (x ∷ xs) = (
  inl refl,
  All-map (λ l. Present l xs) (λ l. Present l (x ∷ xs)) xs (λ a h. inr h) (All-Present xs),
)

module _ (org invoice_id : ℕ) where
  abbrev pub is_other : LineItem → Bool
  is_other l = not (l.invoice_id == invoice_id && l.organization_id == org)

  -- The tables after changes of the invoice's lines.
  pub record Relined (s s' : Store) : Type 0 where
    pub rest : s' ≡ record s { line_items = s'.line_items }
    pub others : select is_other s'.line_items ≡ select is_other s.line_items
    pub lines : All (KeptOrExact s.line_items) s'.line_items

  named : (id : ℕ) (l : LineItem) → is_line org invoice_id id l ≡ true → is_other l ≡ false
  named id l h = ground arith

  pub removed :
      (id : ℕ) (s s' : Store) → Relined s s' → Relined s (remove_line org invoice_id id s')
  removed id s s' r = record {
    rest =
        ap
          (λ (x : Store). record x {
            line_items = delete_where (is_line org invoice_id id) s'.line_items;
          })
          r.rest;
    others =
        select-delete_where is_other (is_line org invoice_id id) (named id) s'.line_items
        ∙ r.others;
    lines =
        All-delete_where (KeptOrExact s.line_items) (is_line org invoice_id id) s'.line_items
          r.lines;
  }

  pub inserted :
      (id : ℕ) (v : LineValues) (s s' : Store)
      → IsExact v.quantity v.unit_amount v.total
      → Relined s s'
      → Relined s (record s' { line_items = new_line org invoice_id id v ∷ s'.line_items })
  inserted id v s s' e r = record {
    rest =
        ap (λ (x : Store). record x { line_items = new_line org invoice_id id v ∷ s'.line_items })
          r.rest;
    others =
        let t : is_other (new_line org invoice_id id v) ≡ false = ground arith in
        rw (t, select) r.others;
    lines = (inr e, r.lines);
  }

  pub updated :
      (id : ℕ) (v : LineValues) (s s' : Store)
      → IsExact v.quantity v.unit_amount v.total
      → Relined s s'
      → Relined s (record s' {
        line_items = update_where (is_line org invoice_id id) (set_line v) s'.line_items;
      })
  updated id v s s' e r = record {
    rest =
        ap
          (λ (x : Store). record x {
            line_items = update_where (is_line org invoice_id id) (set_line v) s'.line_items;
          })
          r.rest;
    others =
        select-update_where is_other (is_line org invoice_id id) (named id) (set_line v)
          (λ a h. named id a h) s'.line_items
        ∙ r.others;
    lines =
        All-update_where (KeptOrExact s.line_items) (KeptOrExact s.line_items)
          (is_line org invoice_id id) (set_line v) s'.line_items (λ a t h. inr e) (λ a t h. h)
          r.lines;
  }
