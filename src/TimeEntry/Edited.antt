-- ===== src/TimeEntry/Edited.antt =====
-- What creating and patching entries keeps, whatever other connections commit between the statements.
use consulting_revenue_platf.Prelude.{
  ℕ, ◌≡◌, refl, ◌⊎◌, inl, inr, true, Option, none, some, List, [], ◌∷◌, All, Bool-cases,
  update_where, arith,
}
use consulting_revenue_platf.Store.{TimeEntryStatus, TimeEntry, Store}
use consulting_revenue_platf.Store.Pool.{Pool}
use consulting_revenue_platf.Store.Rely.{
  Guarantees, Changes, Changes-constrained, Guarantees-pure, Guarantees-statement,
  Guarantees-or_throw, Guarantees-throw_if, Guarantees-bind, Guarantees-query,
}
use consulting_revenue_platf.TimeEntry.Edit.{
  Patch, Columns, set_columns, patched, is_open, is_editable, update_columns, validate_given,
  validate_project, update_time_entry,
}

open_status :
    (st : TimeEntryStatus)
    → is_open st ≡ true
    → (st ≡ TimeEntryStatus.draft) ⊎ (st ≡ TimeEntryStatus.submitted)
open_status TimeEntryStatus.draft h = inl refl
open_status TimeEntryStatus.submitted h = inr refl
open_status TimeEntryStatus.approved h = absurd (ground arith)
open_status TimeEntryStatus.invoiced h = absurd (ground arith)

module _ (org id : ℕ) where
  -- A row that a patch may have changed: the entry that it names, in the tenant's own organization, not
  -- approved or invoiced at that moment; and only the columns of a patch.
  pub record EditedRow (x y : TimeEntry) : Type 0 where
    pub own : x.organization_id ≡ org
    pub named : x.id ≡ id
    pub open_then : (x.status ≡ TimeEntryStatus.draft) ⊎ (x.status ≡ TimeEntryStatus.submitted)
    pub only_columns : y ≡ record x {
      project_id = y.project_id;
      work_date = y.work_date;
      minutes = y.minutes;
      hourly_rate_minor = y.hourly_rate_minor;
      notes = y.notes;
      updated_at = y.updated_at;
    }

  abbrev pub EditedRows : List TimeEntry → List TimeEntry → Type 0
  EditedRows [] [] = Unit
  EditedRows [] (y ∷ ys) = ⊥
  EditedRows (x ∷ xs) [] = ⊥
  EditedRows (x ∷ xs) (y ∷ ys) = ((y ≡ x) ⊎ EditedRow x y) × EditedRows xs ys

  -- No other table is touched.
  pub record Edits (s s' : Store) : Type 0 where
    pub rows : EditedRows s.time_entries s'.time_entries
    pub others : s' ≡ record s { time_entries = s'.time_entries }

  same_rows : (es : List TimeEntry) → EditedRows es es
  same_rows [] = tt
  same_rows (e ∷ es) = (inl refl, same_rows es)

  Edits-refl : (s : Store) → Edits s s
  Edits-refl s = record { rows = same_rows s.time_entries; others = refl }

  pub updated_rows :
      (c : Columns) (now : ℕ) (es : List TimeEntry)
      → EditedRows es (update_where (is_editable org id) (set_columns c now) es)
  updated_rows c now [] = tt
  updated_rows c now (e ∷ es) = elim (Bool-cases (is_editable org id e)) [
    | inl t ↦ rw t (
      inr (record {
        own = ground arith;
        named = ground arith;
        open_then = open_status e.status (ground arith);
        only_columns = refl;
      }),
      updated_rows c now es,
    )
    | inr t ↦ rw t (inl refl, updated_rows c now es)
  ]

  update_columns-Edits :
      (c : Columns) (now : ℕ) (s : Store) → Changes Edits s (update_columns org id c now s)
  update_columns-Edits c now s =
      Changes-constrained Edits s _ _ _
        (λ t. record { rows = updated_rows c now s.time_entries; others = refl })

  module _ (f : Patch) (now : ℕ) where
    validate_project-Edits : (i : ℕ) → Guarantees Edits (validate_project org i)
    unfolding validate_project
    validate_project-Edits i = Guarantees-query Edits Edits-refl _ _ λ row.
        Guarantees-bind Edits Edits-refl _ _ (Guarantees-or_throw Edits Edits-refl row _)
          λ p. Guarantees-throw_if Edits Edits-refl _ _

    validate_given-Edits : (o : Option ℕ) → Guarantees Edits (validate_given org o)
    validate_given-Edits none = Guarantees-pure Edits Edits-refl tt
    validate_given-Edits (some i) = validate_project-Edits i

    update_time_entry-Edits : Guarantees Edits (update_time_entry org id f now)
    unfolding update_time_entry
    update_time_entry-Edits = Guarantees-query Edits Edits-refl _ _ λ row.
        Guarantees-bind Edits Edits-refl _ _ (Guarantees-or_throw Edits Edits-refl row _) λ e.
          Guarantees-bind Edits Edits-refl _ _ (Guarantees-throw_if Edits Edits-refl _ _) λ u.
            Guarantees-bind Edits Edits-refl _ _ (validate_given-Edits f.project_id) λ u.
              Guarantees-bind Edits Edits-refl _ _ (Guarantees-throw_if Edits Edits-refl _ _) λ u.
                Guarantees-bind Edits Edits-refl _ _ (Guarantees-throw_if Edits Edits-refl _ _) λ u.
                  Guarantees-bind Edits Edits-refl _ _
                    (Guarantees-statement Edits Edits-refl _
                      (update_columns-Edits (patched e f) now))
                    λ n. Guarantees-throw_if Edits Edits-refl _ _

    -- A patch, with any calls failed and anything committed by others in between: each statement of it
    -- leaves every other table, every entry of another tenant, every other entry, and every entry that
    -- is approved or invoiced at that moment; in the entry that it names it changes the project, date,
    -- minutes, rate, notes and time of update, and nothing else.
    pub update_time_entry-writes :
        (p : Pool)
        → p.writes ≡ []
        → All (λ w. Edits w.0 w.1) (update_time_entry org id f now p).1.writes
    update_time_entry-writes p h = update_time_entry-Edits.apply p (rw h tt)
