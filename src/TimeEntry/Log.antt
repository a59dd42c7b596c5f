-- ===== src/TimeEntry/Log.antt =====
-- The event log of the workflow (time_entry_events) against the statuses of the rows: the log of each
-- entry is a path of the lifecycle, and it ends in the status that the row has.
use consulting_revenue_platf.Prelude.{
  ℕ, ◌≡◌, sym, ◌⊎◌, Bool, true, false, ◌&&◌, List, [], ◌∷◌, none, some, ◌==◌, if◌then◌else◌,
  find_sound, All, All-find, All-update_where, arith,
}
use mathlib.Core.Path.{subst}
use consulting_revenue_platf.Prelude.Text.{Text}
use consulting_revenue_platf.Store.{
  TimeEntryStatus, TimeEntryAction, submit, approve, reject, TimeEntry, TimeEntryEvent, Store,
}
use consulting_revenue_platf.TimeEntry.Transition.{is_entry}
use consulting_revenue_platf.TimeEntry.Lifecycle.{moved, event_row, Moved}

-- The moves of the lifecycle.
pub data Edge : TimeEntryStatus → TimeEntryAction → TimeEntryStatus → Type 0 where
  submitting : Edge TimeEntryStatus.draft submit TimeEntryStatus.submitted
  approving : Edge TimeEntryStatus.submitted approve TimeEntryStatus.approved
  rejecting : Edge TimeEntryStatus.submitted reject TimeEntryStatus.draft

abbrev is_event : ℕ → ℕ → TimeEntryEvent → Bool
is_event org id ev = ev.time_entry_id == id && ev.organization_id == org

-- The status that the log gives an entry. Rows stand newest first, and an entry begins as a draft.
abbrev pub last_status : ℕ → ℕ → List TimeEntryEvent → TimeEntryStatus
last_status org id [] = TimeEntryStatus.draft
last_status org id (ev ∷ evs) = if is_event org id ev then ev.to_status else last_status org id evs

-- Every event is a move of the lifecycle from where the entry stood.
abbrev pub IsChained : List TimeEntryEvent → Type 0
IsChained [] = Unit
IsChained (ev ∷ evs) =
    Edge ev.from_status ev.action ev.to_status
    × (last_status ev.organization_id ev.time_entry_id evs ≡ ev.from_status)
    × IsChained evs

-- A row on no invoice has the status of its log. A row on an invoice is invoiced, which logs no event,
-- and its log ends in approved.
abbrev pub IsExplained : List TimeEntryEvent → TimeEntry → Type 0
IsExplained evs e =
    ((e.invoice_id ≡ none) × (e.status ≡ last_status e.organization_id e.id evs))
    ⊎ (((n : ℕ) × (e.invoice_id ≡ some n))
        × (e.status ≡ TimeEntryStatus.invoiced)
        × (last_status e.organization_id e.id evs ≡ TimeEntryStatus.approved))

pub record IsLogged (s : Store) : Type 0 where
  pub explained : All (IsExplained s.time_entry_events) s.time_entries
  pub chained : IsChained s.time_entry_events

module _ (org id actor : ℕ) (reason : Text) (now : ℕ) where
  changed_row :
      {from to : TimeEntryStatus} {action : TimeEntryAction} (g : Edge from action to)
      (evs : List TimeEntryEvent) (e : TimeEntry)
      → is_entry org id e ≡ true
      → last_status org id evs ≡ from
      → IsExplained evs e
      → IsExplained
          (event_row org id actor action from to reason now reason ∷ evs)
          (moved org id actor action from to reason now action e)
  changed_row submitting evs e t l h = ground arith
  changed_row approving evs e t l h = ground arith
  changed_row rejecting evs e t l h = ground arith

  kept_row :
      (from to : TimeEntryStatus) (action : TimeEntryAction) (evs : List TimeEntryEvent)
      (e : TimeEntry)
      → is_entry org id e ≡ false
      → IsExplained evs e
      → IsExplained (event_row org id actor action from to reason now reason ∷ evs) e
  kept_row from to action evs e t h = ground arith

  logged_status :
      {from to : TimeEntryStatus} {action : TimeEntryAction} (g : Edge from action to)
      (evs : List TimeEntryEvent) (e : TimeEntry)
      → is_entry org id e ≡ true
      → e.status ≡ from
      → IsExplained evs e
      → last_status org id evs ≡ from
  logged_status submitting evs e t st h = ground arith
  logged_status approving evs e t st h = ground arith
  logged_status rejecting evs e t st h = ground arith

  -- A move keeps the log and the rows in agreement.
  pub Moved-IsLogged :
      {from to : TimeEntryStatus} {action : TimeEntryAction} (g : Edge from action to)
      (s s' : Store)
      → IsLogged s
      → Moved org id actor action from to reason now s s'
      → IsLogged s'
  Moved-IsLogged {from} {to} {action} g s s' h (e, found, st, eq) =
      let logged : last_status org id s.time_entry_events ≡ from =
        logged_status g s.time_entry_events e (find_sound _ s.time_entries e found) st
          (All-find _ _ s.time_entries e h.explained found) in
      subst IsLogged (sym eq) (record {
        explained =
            All-update_where _ _ _ _ s.time_entries (λ a t k. changed_row g _ a t logged k)
              (λ a t k. kept_row from to action _ a t k) h.explained;
        chained = (g, logged, h.chained);
      })
