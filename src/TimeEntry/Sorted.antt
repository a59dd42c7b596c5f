-- ===== src/TimeEntry/Sorted.antt =====
-- The order of the listings: by date and id, which is strict where no two entries have the same id.
use consulting_revenue_platf.Prelude.{
  ◌<◌, ◌≡◌, ◌≢◌, refl, ap, ◌∙◌, ◌⊎◌, inl, inr, Bool, true, false, List, [], ◌∷◌, All, All-map,
  Bool-cases, if◌then◌else◌, select, arith,
}
use consulting_revenue_platf.Store.{TimeEntry}
use consulting_revenue_platf.Invoice.Generate.{comes_before, insert_ordered, order_entries}

abbrev pub Before : TimeEntry → TimeEntry → Type 0
Before a b = (a.work_date < b.work_date) ⊎ (a.work_date ≡ b.work_date) × (a.id < b.id)

-- Each entry comes before all that follow it.
abbrev pub IsOrdered : List TimeEntry → Type 0
IsOrdered [] = Unit
IsOrdered (e ∷ es) = All (Before e) es × IsOrdered es

-- `id` is the primary key.
abbrev pub HasKeys : List TimeEntry → Type 0
HasKeys [] = Unit
HasKeys (e ∷ es) = All (λ x. e.id ≢ x.id) es × HasKeys es

Before-trans : (a b c : TimeEntry) → Before a b → Before b c → Before a c
Before-trans a b c h k = omega arith

comes_before-Before : (a b : TimeEntry) → a.id ≢ b.id → comes_before a b ≡ true → Before a b
comes_before-Before a b n h = ground arith

comes_before-After : (a b : TimeEntry) → a.id ≢ b.id → comes_before a b ≡ false → Before b a
comes_before-After a b n h = ground arith

Before-comes_before : (a b : TimeEntry) → Before a b → comes_before a b ≡ true
Before-comes_before a b (inl h) = ground arith
Before-comes_before a b (inr h) = ground arith

All-insert_ordered {κ} :
    (P : TimeEntry → Type κ) (e : TimeEntry) (es : List TimeEntry)
    → P e
    → All P es
    → All P (insert_ordered e es)
All-insert_ordered P e [] p h = (p, tt)
All-insert_ordered P e (x ∷ xs) p h = elim (Bool-cases (comes_before e x)) [
  | inl t ↦ rw t (p, h)
  | inr t ↦ rw t (h.0, All-insert_ordered P e xs p h.1)
]

pub All-order_entries {κ} :
    (P : TimeEntry → Type κ) (es : List TimeEntry) → All P es → All P (order_entries es)
unfolding order_entries
All-order_entries P [] h = tt
All-order_entries P (e ∷ es) h =
    All-insert_ordered P e (order_entries es) h.0 (All-order_entries P es h.1)

pub All-select {κ} :
    (P : TimeEntry → Type κ) (p : TimeEntry → Bool) (es : List TimeEntry)
    → All P es
    → All P (select p es)
All-select P p [] h = tt
All-select P p (e ∷ es) h = elim (Bool-cases (p e)) [
  | inl t ↦ rw t (h.0, All-select P p es h.1)
  | inr t ↦ rw t (All-select P p es h.1)
]

insert_ordered-IsOrdered :
    (e : TimeEntry) (es : List TimeEntry)
    → All (λ x. e.id ≢ x.id) es
    → IsOrdered es
    → IsOrdered (insert_ordered e es)
insert_ordered-IsOrdered e [] n h = (tt, tt)
insert_ordered-IsOrdered e (x ∷ xs) n h = elim (Bool-cases (comes_before e x)) [
  | inl t ↦
      let b : Before e x = comes_before-Before e x n.0 t in
      rw t ((b, All-map (Before x) (Before e) xs (λ y. Before-trans e x y b) h.0), h)
  | inr t ↦ rw t (
    All-insert_ordered (Before x) e xs (comes_before-After e x n.0 t) h.0,
    insert_ordered-IsOrdered e xs n.1 h.1,
  )
]

pub order_entries-IsOrdered : (es : List TimeEntry) → HasKeys es → IsOrdered (order_entries es)
unfolding order_entries
order_entries-IsOrdered [] k = tt
order_entries-IsOrdered (e ∷ es) k =
    insert_ordered-IsOrdered e (order_entries es) (All-order_entries _ es k.0)
      (order_entries-IsOrdered es k.1)

pub select-HasKeys :
    (p : TimeEntry → Bool) (es : List TimeEntry) → HasKeys es → HasKeys (select p es)
select-HasKeys p [] k = tt
select-HasKeys p (e ∷ es) k = elim (Bool-cases (p e)) [
  | inl t ↦ rw t (All-select _ p es k.0, select-HasKeys p es k.1)
  | inr t ↦ rw t (select-HasKeys p es k.1)
]

pub select-IsOrdered :
    (p : TimeEntry → Bool) (es : List TimeEntry) → IsOrdered es → IsOrdered (select p es)
select-IsOrdered p [] k = tt
select-IsOrdered p (e ∷ es) k = elim (Bool-cases (p e)) [
  | inl t ↦ rw t (All-select _ p es k.0, select-IsOrdered p es k.1)
  | inr t ↦ rw t (select-IsOrdered p es k.1)
]

-- An entry that comes before all of a list is put in front.
insert_first :
    (e : TimeEntry) (es : List TimeEntry) → All (Before e) es → insert_ordered e es ≡ e ∷ es
insert_first e [] h = refl
insert_first e (x ∷ xs) h = rw (Before-comes_before e x h.0) refl

module _ (q : TimeEntry → Bool) where
  select_first :
      (e : TimeEntry) (es : List TimeEntry)
      → All (Before e) es
      → select q (e ∷ es) ≡ (if q e then insert_ordered e (select q es) else select q es)
  select_first e es h = elim (Bool-cases (q e)) [
    | inl t ↦ rw (t, insert_first e (select q es) (All-select _ q es h)) refl
    | inr t ↦ rw t refl
  ]

  -- The filter sees through the insertion.
  select_later :
      (e x : TimeEntry) (es es' : List TimeEntry)
      → comes_before e x ≡ false
      → select q es' ≡ (if q e then insert_ordered e (select q es) else select q es)
      → select q (x ∷ es')
        ≡ (if q e then insert_ordered e (select q (x ∷ es)) else select q (x ∷ es))
  select_later e x es es' t h = elim (Bool-cases (q x)) [
    | inl u ↦ elim (Bool-cases (q e)) [
      | inl v ↦ rw (u, v, t) (ap (λ y. x ∷ y) (rw v at h))
      | inr v ↦ rw (u, v) (ap (λ y. x ∷ y) (rw v at h))
    ]
    | inr u ↦ rw u h
  ]

  select-insert_ordered :
      (e : TimeEntry) (es : List TimeEntry)
      → All (λ x. e.id ≢ x.id) es
      → IsOrdered es
      → select q (insert_ordered e es)
        ≡ (if q e then insert_ordered e (select q es) else select q es)
  select-insert_ordered e [] n h = refl
  select-insert_ordered e (x ∷ xs) n h = elim (Bool-cases (comes_before e x)) [
    | inl t ↦
        let b : Before e x = comes_before-Before e x n.0 t in
        rw (t, ◌≡◌)
          (select_first e (x ∷ xs)
            (b, All-map (Before x) (Before e) xs (λ y. Before-trans e x y b) h.0))
    | inr t ↦
        rw (t, ◌≡◌)
          (select_later e x xs (insert_ordered e xs) t (select-insert_ordered e xs n.1 h.1))
  ]

  -- A condition may be tested before the rows are put in order, or after.
  pub select-order_entries :
      (es : List TimeEntry) → HasKeys es → select q (order_entries es) ≡ order_entries (select q es)
  unfolding order_entries
  select-order_entries [] k = refl
  select-order_entries (e ∷ es) k =
      select-insert_ordered e (order_entries es) (All-order_entries _ es k.0)
        (order_entries-IsOrdered es k.1)
      ∙ elim (Bool-cases (q e)) [
        | inl t ↦ rw t (ap (insert_ordered e) (select-order_entries es k.1))
        | inr t ↦ rw t (select-order_entries es k.1)
      ]
