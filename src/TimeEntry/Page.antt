-- ===== src/TimeEntry/Page.antt =====
-- The listings of internal/repo/time_entries.go and internal/repo/time_entries_pagination.go: filters,
-- and pages that a cursor continues.
use consulting_revenue_platf.Prelude.{
  ℕ, ◌+◌, Bool, true, ◌&&◌, ◌||◌, Option, none, some, List, [], ◌∷◌, ◌==◌, ltb, leb, if◌then◌else◌,
  select, take, length,
}
use consulting_revenue_platf.Prelude.Int.{ℤ, pos, pos_part, ltb_ℤ}
use consulting_revenue_platf.Prelude.Text.{Text, codes, text_eq}
use consulting_revenue_platf.Store.{
  TimeEntryStatus, TimeEntry, Store, Result, Db, ◌>>=◌, pure, query, auto,
}
use consulting_revenue_platf.Invoice.Generate.{order_entries}

-- `ListTimeEntryFilters`.
pub record Filters : Type 0 where
  pub project_id : Option ℕ
  pub user_id : Option ℕ
  pub status : Option Text
  pub from_date : Option ℕ
  pub to_date : Option ℕ

-- `TimeEntryCursor`.
pub record Cursor : Type 0 where
  pub work_date : ℕ
  pub id : ℕ

-- The text of the column.
abbrev pub status_text : TimeEntryStatus → Text
status_text TimeEntryStatus.draft = codes "draft"
status_text TimeEntryStatus.submitted = codes "submitted"
status_text TimeEntryStatus.approved = codes "approved"
status_text TimeEntryStatus.invoiced = codes "invoiced"

-- A condition that is left out if its argument is nil.
abbrev pub when_given {ℓ} : {A : Type ℓ} → (A → Bool) → Option A → Bool
when_given p none = true
when_given p (some a) = p a

-- The `WHERE` of both listings.
unfoldable pub is_listed : ℕ → Filters → TimeEntry → Bool
is_listed org f e =
    e.organization_id == org
    && when_given (λ id. e.project_id == id) f.project_id
    && when_given (λ id. e.user_id == id) f.user_id
    && when_given (text_eq (status_text e.status)) f.status
    && when_given (λ day. leb day e.work_date) f.from_date
    && when_given (λ day. leb e.work_date day) f.to_date

-- `work_date > $n OR (work_date = $n AND id > $n+1)`.
abbrev pub is_past : Cursor → TimeEntry → Bool
is_past c e = ltb c.work_date e.work_date || e.work_date == c.work_date && ltb c.id e.id

abbrev pub is_past_cursor : Option Cursor → TimeEntry → Bool
is_past_cursor c e = when_given (λ k. is_past k e) c

-- `ListTimeEntries`.
unfoldable pub list_time_entries : ℕ → Filters → Db → Result (List TimeEntry) × Db
list_time_entries org f =
    auto (query (λ s. order_entries (select (is_listed org f) s.time_entries)))

-- The limit that a page goes by.
unfoldable pub page_limit : ℤ → ℕ
page_limit limit =
    if ltb_ℤ (pos 0) limit then (if ltb 200 (pos_part limit) then 200 else pos_part limit) else 50

-- The cursor that continues after a row.
abbrev pub cursor_of : TimeEntry → Cursor
cursor_of e = record { work_date = e.work_date; id = e.id }

-- `out[:limit]` and the row `out[limit-1]`, where there is one row more.
abbrev pub last_of : List TimeEntry → Option Cursor
last_of [] = none
last_of (e ∷ []) = some (cursor_of e)
last_of (e ∷ x ∷ xs) = last_of (x ∷ xs)

abbrev pub cut_page : ℕ → List TimeEntry → List TimeEntry × Option Cursor
cut_page limit out =
    if leb (length out) limit then (out, none) else (take limit out, last_of (take limit out))

-- `ORDER BY work_date ASC, id ASC LIMIT limit+1`.
abbrev pub page_rows : ℕ → Filters → Option Cursor → ℕ → Store → List TimeEntry
page_rows org f c limit s =
    take (limit + 1)
      (order_entries (select (λ e. is_listed org f e && is_past_cursor c e) s.time_entries))

-- `ListTimeEntriesPage`.
unfoldable pub list_time_entries_page :
    ℕ → Filters → Option Cursor → ℤ → Db → Result (List TimeEntry × Option Cursor) × Db
unfolding page_limit
list_time_entries_page org f c limit =
    let n = page_limit limit in auto (query (page_rows org f c n) >>= λ out. pure (cut_page n out))
