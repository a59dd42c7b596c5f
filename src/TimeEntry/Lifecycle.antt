-- ===== src/TimeEntry/Lifecycle.antt =====
-- What the workflow transactions of Transition do: exactly one move of the lifecycle, the row and its
-- event together, or nothing.
use mathlib.Core.Path.{ap₂}
use consulting_revenue_platf.Prelude.{
  ℕ, ◌≡◌, refl, ◌⊎◌, inl, inr, true, false, ◌&&◌, none, some, [], ◌∷◌, ◌==◌, find, update_where,
  update_where_ap, List, arith,
}
use consulting_revenue_platf.Prelude.Text.{Text}
use consulting_revenue_platf.Store.{
  TimeEntryStatus, TimeEntryAction, submit, approve, reject, TimeEntry, TimeEntryEvent, Store,
  Error, time_entry_not_found, invalid_time_entry_transition, Db, Ensures, Ensures-query,
  Ensures-found, Ensures-throw_if, Ensures-exec, Ensures-exec_last, Outcome, run_in_tx-Outcome,
}
use consulting_revenue_platf.TimeEntry.Transition.{
  same_status, set_reviewed, transition_event, is_entry, update_entry, log_event,
  apply_transition_tx, apply_transition,
}

pub same_status_iff : (a b : TimeEntryStatus) → same_status a b ≡ true → a ≡ b
same_status_iff a b h = ground arith

module _ (org id actor : ℕ) (action : TimeEntryAction) (from to : TimeEntryStatus) (reason : Text)
    (now : ℕ) where
  -- The columns of the row that each action changes.
  abbrev pub moved : TimeEntryAction → TimeEntry → TimeEntry
  moved submit e = record e {
    status = TimeEntryStatus.submitted;
    submitted_at = some now;
    submitted_by_user_id = some actor;
    reviewed_at = none;
    approver_user_id = none;
    rejected_reason = none;
    updated_at = now;
  }
  moved approve e = record e {
    status = TimeEntryStatus.approved;
    reviewed_at = some now;
    approver_user_id = some actor;
    rejected_reason = none;
    updated_at = now;
  }
  moved reject e = record e {
    status = TimeEntryStatus.draft;
    reviewed_at = some now;
    approver_user_id = some actor;
    rejected_reason = some reason;
    updated_at = now;
  }

  -- The one event that is logged; an empty reason is left out.
  abbrev pub event_row : Text → TimeEntryEvent
  event_row r = record {
    organization_id = org;
    time_entry_id = id;
    actor_user_id = actor;
    from_status = from;
    to_status = to;
    action = action;
    reason = elim r [ [] ↦ none | ch ∷ rest ↦ some (ch ∷ rest) ];
  }

  -- The entry was found in the status that the action starts from, and both tables are written.
  abbrev pub Moved : Store → Store → Type 0
  Moved s s' =
      (e : TimeEntry) × (find (is_entry org id) s.time_entries ≡ some e)
      × (e.status ≡ from)
      × (s' ≡ record s {
        time_entries =
            update_where (λ (x : TimeEntry). x.id == id && x.organization_id == org) (moved action)
              s.time_entries;
        time_entry_events = event_row reason ∷ s.time_entry_events;
      })

  -- Why the repository refuses the action.
  abbrev pub Refused : Store → Error → Type 0
  Refused s e =
      ((e ≡ time_entry_not_found) × (find (is_entry org id) s.time_entries ≡ none))
      ⊎ ((e ≡ invalid_time_entry_transition)
          × ((row : TimeEntry) × (find (is_entry org id) s.time_entries ≡ some row)
              × (same_status row.status from ≡ false)))

  set_reviewed_lem :
      (a : TimeEntryAction) (e : TimeEntry) → set_reviewed a actor reason now e ≡ moved a e
  set_reviewed_lem submit e = refl
  set_reviewed_lem approve e = refl
  set_reviewed_lem reject e = refl

  event_row_lem : (r : Text) → transition_event org id actor action from to r ≡ event_row r
  event_row_lem [] = refl
  event_row_lem (c ∷ r) = refl

  moved_store :
      (s : Store)
      → log_event org id actor action from to reason now
          (update_entry org id actor action from to reason now s)
        ≡ record s {
          time_entries =
              update_where
                (λ (x : TimeEntry). x.id == id && x.organization_id == org)
                (moved action)
                s.time_entries;
          time_entry_events = event_row reason ∷ s.time_entry_events;
        }
  moved_store s =
      ap₂
        (λ (rows : List TimeEntry) (ev : TimeEntryEvent). record s {
          time_entries = rows;
          time_entry_events = ev ∷ s.time_entry_events;
        })
        (update_where_ap _ (set_reviewed action actor reason now) (moved action) s.time_entries
          (set_reviewed_lem action))
        (event_row_lem reason)

  apply_transition_tx-Ensures :
      (s : Store)
      → Ensures
          (apply_transition_tx org id actor action from to reason now)
          s
          (λ u s'. Moved s s')
          (λ e b s'. Refused s e)
  unfolding apply_transition_tx
  apply_transition_tx-Ensures s = Ensures-query _ _ (
      Ensures-found _ _ _ (λ h. inl (refl, h))
        (λ e found.
          Ensures-throw_if _ _ _ (λ t. inr (refl, (e, found, ground arith)))
            (λ t.
              Ensures-exec _ _ (
                Ensures-exec_last _
                  (e, found, same_status_iff _ _ (ground arith), moved_store s)))))

  -- A transition of the repository, with any calls of the driver failed: the entry was in the status that
  -- it asks for, its status and the columns of its submission or review are set as the action says, one
  -- event is logged, and nothing else is written; or the tables are as they were, and a call
  -- was failed, the entry is missing, or it is in another status.
  pub apply_transition-Outcome :
      (d : Db)
      → Outcome
          (λ u s'. Moved d.store s')
          (λ e b s'. Refused d.store e)
          d
          (apply_transition org id actor action from to reason now d)
  unfolding apply_transition
  apply_transition-Outcome d = run_in_tx-Outcome _ _ _ d (apply_transition_tx-Ensures d.store)
