-- ===== src/TimeEntry/Edit.antt =====
-- Creating and patching entries (internal/repo/time_entries.go): statements on the pool, with no
-- transaction around them. The id of a new row is an argument. The CHECKs of the table on minutes and
-- rate are left out, as the code tests the values itself.
use consulting_revenue_platf.Prelude.{
  ℕ, Bool, true, false, ◌&&◌, ◌||◌, not, Option, none, some, List, [], ◌∷◌, ◌==◌, find, count_where,
  update_where,
}
use consulting_revenue_platf.Prelude.Int.{ℤ, pos, ltb_ℤ}
use consulting_revenue_platf.Prelude.Text.{Text, trim_space}
use consulting_revenue_platf.Store.{
  TimeEntryStatus, TimeEntry, Project, User, Store, Result, time_entry_not_found, time_entry_locked,
  minutes_out_of_range, negative_rate, project_not_found, project_archived,
}
use consulting_revenue_platf.Store.Pool.{
  Op, constrained, statement, query, or_throw, pure, throw_if, ◌>>=◌, ◌>>◌,
}
use consulting_revenue_platf.TimeEntry.Transition.{same_status, is_entry, null_if_empty}

-- `WHERE id = $1 AND organization_id = $2` of projects.
abbrev pub is_project : ℕ → ℕ → Project → Bool
is_project org id p = p.id == id && p.organization_id == org

-- `ValidateProjectForTimeEntry`.
unfoldable pub validate_project : ℕ → ℕ → Op (Unit {0})
validate_project org id = do
  row ← query (λ s. find (is_project org id) s.projects)
  p ← or_throw row project_not_found
  throw_if p.archived project_archived

-- `minutes <= 0 || minutes > 1440`.
abbrev pub out_of_range : ℤ → Bool
out_of_range minutes = not (ltb_ℤ (pos 0) minutes) || ltb_ℤ (pos 1440) minutes

abbrev pub trimmed_notes : Option Text → Option Text
trimmed_notes none = none
trimmed_notes (some s) = null_if_empty (trim_space s)

abbrev pub new_entry : ℕ → ℕ → ℕ → ℕ → ℕ → ℤ → ℤ → Option Text → ℕ → TimeEntry
new_entry id org project user day minutes rate notes now = record {
  id = id;
  organization_id = org;
  project_id = project;
  user_id = user;
  work_date = day;
  minutes = minutes;
  hourly_rate_minor = rate;
  status = TimeEntryStatus.draft;
  notes = notes;
  submitted_at = none;
  submitted_by_user_id = none;
  reviewed_at = none;
  approver_user_id = none;
  rejected_reason = none;
  invoice_id = none;
  updated_at = now;
}

-- The primary key, and the foreign keys to projects and users.
abbrev pub id_taken : ℕ → List TimeEntry → Bool
id_taken id [] = false
id_taken id (e ∷ es) = e.id == id || id_taken id es

abbrev pub is_found {ℓ} : {A : Type ℓ} → Option A → Bool
is_found none = false
is_found (some a) = true

abbrev pub insert_entry : TimeEntry → Store → Result (ℕ × Store)
insert_entry e s =
    constrained
      (not (id_taken e.id s.time_entries)
        && is_found (find (λ (p : Project). p.id == e.project_id) s.projects)
        && is_found (find (λ (u : User). u.id == e.user_id) s.users))
      e.id (record s { time_entries = e ∷ s.time_entries })

-- `CreateTimeEntry`.
unfoldable pub create_time_entry : ℕ → ℕ → ℕ → ℕ → ℕ → ℤ → ℤ → Option Text → ℕ → Op ℕ
unfolding validate_project
create_time_entry id org project user day minutes rate notes now = do
  validate_project org project
  throw_if (out_of_range minutes) minutes_out_of_range
  throw_if (ltb_ℤ rate (pos 0)) negative_rate
  statement
      (insert_entry (new_entry id org project user day minutes rate (trimmed_notes notes) now))

-- The fields of a patch.
pub record Patch : Type 0 where
  pub project_id : Option ℕ
  pub work_date : Option ℕ
  pub minutes : Option ℤ
  pub hourly_rate_minor : Option ℤ
  pub notes : Option Text

abbrev pub or_else {ℓ} : {A : Type ℓ} → Option A → A → A
or_else none a = a
or_else (some b) a = b

abbrev pub given_bad : (ℤ → Bool) → Option ℤ → Bool
given_bad bad none = false
given_bad bad (some z) = bad z

-- The columns that the `UPDATE` sets.
pub record Columns : Type 0 where
  pub project_id : ℕ
  pub work_date : ℕ
  pub minutes : ℤ
  pub hourly_rate_minor : ℤ
  pub notes : Option Text

abbrev pub patched_notes : Option Text → Option Text → Option Text
patched_notes none old = old
patched_notes (some s) old = null_if_empty (trim_space s)

-- What is written: the fields of the patch, and what was read for the others.
abbrev pub patched : TimeEntry → Patch → Columns
patched e f = record {
  project_id = or_else f.project_id e.project_id;
  work_date = or_else f.work_date e.work_date;
  minutes = or_else f.minutes e.minutes;
  hourly_rate_minor = or_else f.hourly_rate_minor e.hourly_rate_minor;
  notes = patched_notes f.notes e.notes;
}

abbrev pub set_columns : Columns → ℕ → TimeEntry → TimeEntry
set_columns c now e = record e {
  project_id = c.project_id;
  work_date = c.work_date;
  minutes = c.minutes;
  hourly_rate_minor = c.hourly_rate_minor;
  notes = c.notes;
  updated_at = now;
}

-- `status IN ('draft', 'submitted')`.
abbrev pub is_open : TimeEntryStatus → Bool
is_open st = same_status st TimeEntryStatus.draft || same_status st TimeEntryStatus.submitted

abbrev pub is_editable : ℕ → ℕ → TimeEntry → Bool
is_editable org id e = is_entry org id e && is_open e.status

-- The `UPDATE`, and the number of rows that it affected.
abbrev pub update_columns : ℕ → ℕ → Columns → ℕ → Store → Result (ℕ × Store)
update_columns org id c now s =
    constrained
      (is_found (find (λ (p : Project). p.id == c.project_id) s.projects)
        || count_where (is_editable org id) s.time_entries == 0)
      (count_where (is_editable org id) s.time_entries)
      (record s {
        time_entries = update_where (is_editable org id) (set_columns c now) s.time_entries;
      })

abbrev pub validate_given : ℕ → Option ℕ → Op (Unit {0})
validate_given org none = pure tt
validate_given org (some id) = validate_project org id

-- The refusals by the status that was read.
abbrev pub is_locked : TimeEntryStatus → Bool
is_locked st =
    same_status st TimeEntryStatus.approved
    || same_status st TimeEntryStatus.invoiced
    || not (is_open st)

-- `UpdateTimeEntry`.
unfoldable pub update_time_entry : ℕ → ℕ → Patch → ℕ → Op (Unit {0})
unfolding validate_project
update_time_entry org id f now = do
  row ← query (λ s. find (is_entry org id) s.time_entries)
  e ← or_throw row time_entry_not_found
  throw_if (is_locked e.status) time_entry_locked
  validate_given org f.project_id
  throw_if (given_bad out_of_range f.minutes) minutes_out_of_range
  throw_if (given_bad (λ r. ltb_ℤ r (pos 0)) f.hourly_rate_minor) negative_rate
  n ← statement (update_columns org id (patched e f) now)
  throw_if (n == 0) time_entry_not_found
