-- ===== src/TimeEntry/Pages.antt =====
-- Following the cursors of the paged listing gives the whole listing.
use consulting_revenue_platf.Prelude.{
  ℕ, zero, suc, ◌+◌, ◌-◌, ◌≤◌, ◌<◌, ◌≡◌, refl, sym, ap, ◌∙◌, inl, inr, Bool, true, false, ◌&&◌,
  Option, none, some, List, [], ◌∷◌, ◌++◌, All, All-map, Bool-cases, select, take, drop, length,
  leb, arith,
}
use consulting_revenue_platf.Prelude.Int.{ℤ}
use consulting_revenue_platf.Store.{TimeEntry, Store, Result, ok, err, Db, tx_steps}
use consulting_revenue_platf.Invoice.Generate.{order_entries}
use consulting_revenue_platf.TimeEntry.Page.{
  Filters, Cursor, is_listed, is_past, is_past_cursor, cursor_of, last_of, cut_page, page_limit,
  list_time_entries, list_time_entries_page,
}
use consulting_revenue_platf.TimeEntry.Sorted.{
  Before, IsOrdered, HasKeys, select-order_entries, order_entries-IsOrdered, select-HasKeys,
  select-IsOrdered,
}

take_all : (n : ℕ) (es : List TimeEntry) → length es ≤ n → take n es ≡ es
take_all zero [] h = refl
take_all zero (e ∷ es) h = absurd (omega arith)
take_all (suc n) [] h = refl
take_all (suc n) (e ∷ es) h = ap (λ y. e ∷ y) (take_all n es (omega arith))

take-take : (n : ℕ) (es : List TimeEntry) → take n (take (suc n) es) ≡ take n es
take-take zero es = refl
take-take (suc n) [] = refl
take-take (suc n) (e ∷ es) = ap (λ y. e ∷ y) (take-take n es)

length-take : (n : ℕ) (es : List TimeEntry) → n < length es → length (take (suc n) es) ≡ suc n
length-take n [] h = absurd (omega arith)
length-take zero (e ∷ es) h = refl
length-take (suc n) (e ∷ es) h = ap suc (length-take n es (omega arith))

take-append-drop : (n : ℕ) (es : List TimeEntry) → take n es ++ drop n es ≡ es
take-append-drop zero es = refl
take-append-drop (suc n) [] = refl
take-append-drop (suc n) (e ∷ es) = ap (λ y. e ∷ y) (take-append-drop n es)

length-drop : (n : ℕ) (es : List TimeEntry) → length (drop n es) ≡ length es - n
length-drop zero es = omega arith
length-drop (suc n) [] = omega arith
length-drop (suc n) (e ∷ es) = omega (arith, length-drop n es)

select-All :
    (q : TimeEntry → Bool) (es : List TimeEntry) → All (λ e. q e ≡ true) es → select q es ≡ es
select-All q [] h = refl
select-All q (e ∷ es) h = rw h.0 (ap (λ y. e ∷ y) (select-All q es h.1))

pub select-meets :
    (q : TimeEntry → Bool) (es : List TimeEntry) → All (λ e. q e ≡ true) (select q es)
select-meets q [] = tt
select-meets q (e ∷ es) = elim (Bool-cases (q e)) [
  | inl t ↦ rw (t, All) (t, select-meets q es)
  | inr t ↦ rw t (select-meets q es)
]

-- Two conditions, one after the other.
select-select :
    (p q : TimeEntry → Bool) (es : List TimeEntry)
    → select (λ e. p e && q e) es ≡ select q (select p es)
select-select p q [] = refl
select-select p q (e ∷ es) = elim (Bool-cases (p e)) [
  | inl t ↦ elim (Bool-cases (q e)) [
    | inl u ↦ rw (t, u) (ap (λ y. e ∷ y) (select-select p q es))
    | inr u ↦ rw (t, u) (select-select p q es)
  ]
  | inr t ↦ rw t (select-select p q es)
]

-- A condition that implies another.
select_narrower :
    (p q : TimeEntry → Bool) (es : List TimeEntry)
    → ((e : TimeEntry) → q e ≡ true → p e ≡ true)
    → select q (select p es) ≡ select q es
select_narrower p q [] h = refl
select_narrower p q (e ∷ es) h = elim (Bool-cases (q e)) [
  | inl t ↦ rw (h e t, t) (ap (λ y. e ∷ y) (select_narrower p q es h))
  | inr t ↦ elim (Bool-cases (p e)) [
    | inl u ↦ rw (u, t) (select_narrower p q es h)
    | inr u ↦ rw (u, t) (select_narrower p q es h)
  ]
]

Before-is_past : (a b : TimeEntry) → Before a b → is_past (cursor_of a) b ≡ true
Before-is_past a b (inl h) = ground arith
Before-is_past a b (inr h) = ground arith

Before-not_past : (a b : TimeEntry) → Before a b → is_past (cursor_of b) a ≡ false
Before-not_past a b (inl h) = ground arith
Before-not_past a b (inr h) = ground arith

not_past_self : (a : TimeEntry) → is_past (cursor_of a) a ≡ false
not_past_self a = ground arith

is_past_trans :
    (c : Option Cursor) (a b : TimeEntry)
    → is_past_cursor c a ≡ true
    → is_past (cursor_of a) b ≡ true
    → is_past_cursor c b ≡ true
is_past_trans none a b h k = refl
is_past_trans (some c) a b h k = ground arith

All-both :
    (P R : TimeEntry → Type 0) (es : List TimeEntry) → All P es → All R es → All (λ y. P y × R y) es
All-both P R [] p r = tt
All-both P R (e ∷ es) p r = ((p.0, r.0), All-both P R es p.1 r.1)

-- Where a page is cut off: its last row, and what is past it.
record Cut (P : TimeEntry → Type 0) (n : ℕ) (es : List TimeEntry) : Type 0 where
  row : TimeEntry
  is_last : last_of (take n es) ≡ some (cursor_of row)
  rest : select (is_past (cursor_of row)) es ≡ drop n es
  meets : P row

Cut-at :
    (P : TimeEntry → Type 0) (n : ℕ) (es : List TimeEntry)
    → suc n < length es
    → IsOrdered es
    → All P es
    → Cut P (suc n) es
Cut-at P n [] h o p = absurd (omega arith)
Cut-at P zero (e ∷ es) h o p = record {
  row = e;
  is_last = refl;
  rest = rw (not_past_self e) (
      select-All (is_past (cursor_of e)) es
        (All-map (Before e) (λ x. is_past (cursor_of e) x ≡ true) es (Before-is_past e) o.0));
  meets = p.0;
}
Cut-at P (suc n) (e ∷ []) h o p = absurd (omega arith)
Cut-at P (suc n) (e ∷ x ∷ es) h o p =
    let c =
      Cut-at (λ y. P y × Before e y) n (x ∷ es) (omega arith) o.1
        (All-both P (Before e) (x ∷ es) p.1 o.0) in
    record {
      row = c.row;
      is_last = c.is_last;
      rest = rw (Before-not_past e c.row c.meets.1) c.rest;
      meets = c.meets.0;
    }

-- The page that is cut from ordered rows: all of them, or the first ones with the cursor of the last.
cut_page_all :
    (n : ℕ) (es : List TimeEntry) → length es ≤ n → cut_page n (take (n + 1) es) ≡ (es, none)
cut_page_all n es h =
    let t : leb (length es) n ≡ true = ground arith in
    rw (take_all (n + 1) es (omega arith), t) refl

cut_page_some :
    (n : ℕ) (es : List TimeEntry)
    → n < length es
    → cut_page n (take (n + 1) es) ≡ (take n es, last_of (take n es))
cut_page_some n es h =
    let e : n + 1 ≡ suc n = omega arith in
    let t : leb (suc n) n ≡ false = ground arith in
    rw (e, length-take n es h, take-take n es, t) refl

page_limit_bounds : (limit : ℤ) → (0 < page_limit limit) × (page_limit limit ≤ 200)
unfolding page_limit
page_limit_bounds limit = ground arith

ok_inj : {a b : List TimeEntry} → ok a ≡ ok b → a ≡ b
ok_inj h = cc

All-true : (es : List TimeEntry) → All (λ e. is_past_cursor none e ≡ true) es
All-true [] = tt
All-true (e ∷ es) = (refl, All-true es)

abbrev append_rows : List TimeEntry → Option (List TimeEntry) → Option (List TimeEntry)
append_rows es none = none
append_rows es (some xs) = some (es ++ xs)

-- What a client does with a page: it goes on where a cursor is returned.
abbrev after :
    (Cursor → Db → Option (List TimeEntry))
    → Result (List TimeEntry × Option Cursor) × Db
    → Option (List TimeEntry)
after go (err e, d) = none
after go (ok (es, none), d) = some es
after go (ok (es, some c), d) = append_rows es (go c d)

module _ (org : ℕ) (f : Filters) (limit : ℤ) where
  -- A client that asks for page after page, at most as many as its fuel, until no cursor is returned.
  pub follow : ℕ → Option Cursor → Db → Option (List TimeEntry)
  follow zero c d = none
  follow (suc k) c d =
      after (λ c' d'. follow k (some c') d') (list_time_entries_page org f c limit d)

  module _ (s : Store) (keys : HasKeys s.time_entries) where
    abbrev listing : List TimeEntry
    listing = order_entries (select (is_listed org f) s.time_entries)

    abbrev steady : Db
    steady = record { store = s; faults = [] }

    listing-IsOrdered : IsOrdered listing
    listing-IsOrdered = order_entries-IsOrdered _ (select-HasKeys _ s.time_entries keys)

    rows_past :
        (c : Option Cursor)
        → order_entries (select (λ e. is_listed org f e && is_past_cursor c e) s.time_entries)
          ≡ select (is_past_cursor c) listing
    rows_past c =
        ap order_entries (select-select (is_listed org f) (is_past_cursor c) s.time_entries)
        ∙ sym (
            select-order_entries (is_past_cursor c) (select (is_listed org f) s.time_entries)
              (select-HasKeys _ s.time_entries keys))

    abbrev page_past : Option Cursor → List TimeEntry × Option Cursor
    page_past c =
        cut_page (page_limit limit)
          (take (page_limit limit + 1) (select (is_past_cursor c) listing))

    page_lem :
        (c : Option Cursor)
        → list_time_entries_page org f c limit steady ≡ (ok (page_past c), steady)
    unfolding list_time_entries_page tx_steps
    page_lem c =
        ap (λ x. (ok (cut_page (page_limit limit) (take (page_limit limit + 1) x)), steady))
          (rows_past c)

    follow_page :
        (k : ℕ) (c : Option Cursor) (q : List TimeEntry × Option Cursor)
        → page_past c ≡ q
        → follow (suc k) c steady ≡ after (λ c' d'. follow k (some c') d') (ok q, steady)
    unfolding follow
    follow_page k c q h =
        ap (after (λ c' d'. follow k (some c') d')) (page_lem c ∙ ap (λ x. (ok x, steady)) h)

    -- What is past the last row of a page is what is past its cursor, less the page.
    next_rows :
        (c : Option Cursor) (row : TimeEntry)
        → is_past_cursor c row ≡ true
        → select (is_past (cursor_of row)) (select (is_past_cursor c) listing)
          ≡ select (is_past (cursor_of row)) listing
    next_rows c row h =
        select_narrower (is_past_cursor c) (is_past (cursor_of row)) listing
          (λ e. is_past_trans c row e h)

    follow_rest :
        (k : ℕ) (c : Option Cursor)
        → length (select (is_past_cursor c) listing) < k
        → follow k c steady ≡ some (select (is_past_cursor c) listing)
    follow_rest zero c h = elim h [ ]
    follow_rest (suc k) c h =
        let n = page_limit limit in
        let rows = select (is_past_cursor c) listing in
        elim (Bool-cases (leb (length rows) n)) [
          | inl t ↦ follow_page k c (rows, none) (cut_page_all n rows (ground arith))
          | inr t ↦
              let more : n < length rows = ground arith in
              let e : n ≡ suc (n - 1) = omega (arith, page_limit_bounds limit) in
              let cut =
                Cut-at (λ x. is_past_cursor c x ≡ true) (n - 1) rows (omega arith)
                  (select-IsOrdered _ listing listing-IsOrdered)
                  (select-meets (is_past_cursor c) listing) in
              let rest : select (is_past (cursor_of cut.row)) listing ≡ drop n rows =
                sym (next_rows c cut.row cut.meets) ∙ cut.rest ∙ ap (λ m. drop m rows) (sym e) in
              let last : last_of (take n rows) ≡ some (cursor_of cut.row) =
                ap (λ m. last_of (take m rows)) e ∙ cut.is_last in
              let shorter : length (select (is_past (cursor_of cut.row)) listing) < k =
                omega (arith, ap length rest, length-drop n rows, page_limit_bounds limit) in
              follow_page k c (take n rows, some (cursor_of cut.row))
                (cut_page_some n rows more ∙ ap (λ o. (take n rows, o)) last)
              ∙ ap (append_rows (take n rows)) (follow_rest k (some (cursor_of cut.row)) shorter)
              ∙ ap (λ x. some (take n rows ++ x)) rest
              ∙ ap some (take-append-drop n rows)
        ]

    -- On a database that answers and does not change meanwhile, whose entries have distinct ids: a
    -- client that asks for page after page, whatever the limit that it asks for, gets by the cursors
    -- exactly the rows of the whole listing, each once and in order, with one more request than the
    -- listing has rows at the most.
    pub follow-list_time_entries :
        (k : ℕ) (es : List TimeEntry)
        → (list_time_entries org f steady).0 ≡ ok es
        → length es < k
        → follow k none steady ≡ some es
    unfolding list_time_entries tx_steps
    follow-list_time_entries k es h m =
        let e : listing ≡ es = ok_inj h in
        let whole : select (is_past_cursor none) listing ≡ listing =
          select-All (is_past_cursor none) listing (All-true listing) in
        follow_rest k none (omega (arith, ap length whole, ap length e)) ∙ ap some (whole ∙ e)
