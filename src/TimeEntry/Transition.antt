-- ===== src/TimeEntry/Transition.antt =====
-- Submit, approve and reject as internal/repo/time_entry_workflow.go runs them: one transaction that
-- locks the entry, checks the status that the action starts from, updates the row, logs an event.
use consulting_revenue_platf.Prelude.{
  ℕ, Bool, ◌&&◌, not, Option, none, some, [], ◌∷◌, ◌==◌, find, update_where,
}
use consulting_revenue_platf.Prelude.Text.{Text, trim_space}
use consulting_revenue_platf.Store.{
  TimeEntryStatus, TimeEntryAction, submit, approve, reject, TimeEntry, TimeEntryEvent, Store,
  Result, err, Tx, Db, ◌>>=◌, ◌>>◌, query, exec, or_throw, throw_if, run_in_tx,
  time_entry_not_found, invalid_time_entry_transition, reject_reason_required,
}

abbrev pub status_code : TimeEntryStatus → ℕ
status_code TimeEntryStatus.draft = 0
status_code TimeEntryStatus.submitted = 1
status_code TimeEntryStatus.approved = 2
status_code TimeEntryStatus.invoiced = 3

-- `==` on statuses.
abbrev pub same_status : TimeEntryStatus → TimeEntryStatus → Bool
same_status a b = status_code a == status_code b

-- `WHERE id = $1 AND organization_id = $2`.
abbrev pub is_entry : ℕ → ℕ → TimeEntry → Bool
is_entry org id e = e.id == id && e.organization_id == org

-- The `UPDATE` of each action.
abbrev pub set_reviewed : TimeEntryAction → ℕ → Text → ℕ → TimeEntry → TimeEntry
set_reviewed submit actor reason now e = record e {
  status = TimeEntryStatus.submitted;
  submitted_at = some now;
  submitted_by_user_id = some actor;
  reviewed_at = none;
  approver_user_id = none;
  rejected_reason = none;
  updated_at = now;
}
set_reviewed approve actor reason now e = record e {
  status = TimeEntryStatus.approved;
  reviewed_at = some now;
  approver_user_id = some actor;
  rejected_reason = none;
  updated_at = now;
}
set_reviewed reject actor reason now e = record e {
  status = TimeEntryStatus.draft;
  reviewed_at = some now;
  approver_user_id = some actor;
  rejected_reason = some reason;
  updated_at = now;
}

-- `NULLIF($7, '')`.
abbrev pub null_if_empty : Text → Option Text
null_if_empty [] = none
null_if_empty (c ∷ s) = some (c ∷ s)

module _ (organization_id entry_id actor_user_id : ℕ) where
  abbrev pub transition_event :
      TimeEntryAction → TimeEntryStatus → TimeEntryStatus → Text → TimeEntryEvent
  transition_event action from to reason = record {
    organization_id = organization_id;
    time_entry_id = entry_id;
    actor_user_id = actor_user_id;
    from_status = from;
    to_status = to;
    action = action;
    reason = null_if_empty reason;
  }

  module _ (action : TimeEntryAction) (from to : TimeEntryStatus) (reason : Text) (now : ℕ) where
    -- The tables after the two writes.
    abbrev pub update_entry : Store → Store
    update_entry s = record s {
      time_entries =
          update_where (is_entry organization_id entry_id)
            (set_reviewed action actor_user_id reason now) s.time_entries;
    }

    abbrev pub log_event : Store → Store
    log_event s = record s {
      time_entry_events = transition_event action from to reason ∷ s.time_entry_events;
    }

    -- `applyTimeEntryTransitionTx`.
    unfoldable pub apply_transition_tx : Tx (Unit {0})
    apply_transition_tx = do
      row ← query (λ s. find (is_entry organization_id entry_id) s.time_entries)
      e ← or_throw row time_entry_not_found
      throw_if (not (same_status e.status from)) invalid_time_entry_transition
      exec update_entry
      exec log_event

    -- `applyTimeEntryTransition`.
    unfoldable pub apply_transition : Db → Result (Unit {0}) × Db
    apply_transition = run_in_tx apply_transition_tx

  -- `SubmitTimeEntry`.
  unfoldable pub submit_time_entry : ℕ → Db → Result (Unit {0}) × Db
  submit_time_entry now =
      apply_transition submit TimeEntryStatus.draft TimeEntryStatus.submitted [] now

  -- `ApproveTimeEntry`.
  unfoldable pub approve_time_entry : ℕ → Db → Result (Unit {0}) × Db
  approve_time_entry now =
      apply_transition approve TimeEntryStatus.submitted TimeEntryStatus.approved [] now

  -- `RejectTimeEntry`: the reason is trimmed, and must not be empty.
  unfoldable pub reject_time_entry : Text → ℕ → Db → Result (Unit {0}) × Db
  reject_time_entry reason now d =
      let r = trim_space reason in
      elim (null_if_empty r) [
        | none ↦ (err reject_reason_required, d)
        | some _ ↦ apply_transition reject TimeEntryStatus.submitted TimeEntryStatus.draft r now d
      ]
