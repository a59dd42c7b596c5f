-- ===== src/Scenarios/Entries.antt =====
-- Runs on time entries: one entry in draft, and one that was submitted.
use consulting_revenue_platf.Prelude.{ℕ, ◌≡◌, refl, ◌⊎◌, inl, false, List, [], ◌∷◌, none, some}
use Prim.Native.String.{String}
use consulting_revenue_platf.Prelude.Int.{pos}
use consulting_revenue_platf.Prelude.Text.{Text, codes, trim_space, to_upper}
use consulting_revenue_platf.Store.{
  TimeEntryStatus, TimeEntryAction, TimeEntry, TimeEntryEvent, Store, unsupported_currency, ok, err,
  Db, Outcome, tx_steps,
}
use consulting_revenue_platf.TimeEntry.Transition.{
  apply_transition, apply_transition_tx, submit_time_entry, approve_time_entry, reject_time_entry,
}
use consulting_revenue_platf.TimeEntry.Lifecycle.{Moved, Refused, apply_transition-Outcome}
use consulting_revenue_platf.TimeEntry.Log.{submitting, IsLogged}
use consulting_revenue_platf.Workflow.Domain.{
  Snapshot, forbidden, is_blank, validate_submit, validate_approve, validate_reject,
}
use consulting_revenue_platf.Workflow.Service.{
  UseError, kind_forbidden, domain_error, ActionInput, perform, submit_service, approve_service,
  reject_service,
}
use consulting_revenue_platf.Workflow.Repo.{get_time_entry, get_snapshot, repo_store}
use consulting_revenue_platf.Workflow.Authorised.{
  submit_service_authorised, approve_service_authorised, reject_service_authorised,
}
use consulting_revenue_platf.Workflow.Requests.{
  Request, submitting_by, approving_by, rejecting_by, handle, handle_all, handle_all-IsLogged,
  handle_forbidden,
}
use consulting_revenue_platf.Int64.{add64, sub64, mul64, quot}
use consulting_revenue_platf.Money.Currency.{normalize_currency}
use consulting_revenue_platf.Invoice.Header.{allocate_next_invoice_number}
use consulting_revenue_platf.Invoice.Amounts.{line_amount, add_line}
use consulting_revenue_platf.Invoice.Generate.{
  GenerateParams, generate_invoice, generate_tx, bill, order_entries, hours_hundredths, line_of,
}
use consulting_revenue_platf.Invoice.Generated.{Generated, NotGenerated, generate_invoice-Outcome}
use consulting_revenue_platf.Scenarios.{empty_store}

-- Time entries: one in draft, and one submitted.
abbrev pub entry : ℕ → TimeEntryStatus → TimeEntry
entry id status = record {
  id = id;
  organization_id = 1;
  project_id = 7;
  user_id = 5;
  work_date = 100;
  minutes = pos 90;
  hourly_rate_minor = pos 10000;
  status = status;
  notes = none;
  submitted_at = none;
  submitted_by_user_id = none;
  reviewed_at = none;
  approver_user_id = none;
  rejected_reason = none;
  invoice_id = none;
  updated_at = 0;
}

abbrev submission : TimeEntryEvent
submission = record {
  organization_id = 1;
  time_entry_id = 11;
  actor_user_id = 5;
  from_status = TimeEntryStatus.draft;
  to_status = TimeEntryStatus.submitted;
  action = TimeEntryAction.submit;
  reason = none;
}

abbrev pub entries_store : Store
entries_store = record empty_store {
  time_entries = entry 10 TimeEntryStatus.draft ∷ entry 11 TimeEntryStatus.submitted ∷ [];
  time_entry_events = submission ∷ [];
}

abbrev entries_db : Db
entries_db = record { store = entries_store; faults = [] }

entries_store-IsLogged : IsLogged entries_store
entries_store-IsLogged = record {
  explained = (inl (refl, refl), (inl (refl, refl), tt));
  chained = (submitting, refl, tt);
}

abbrev by : String → ℕ → ActionInput
by role id = record { organization_id = 1; entry_id = id; actor_user_id = 5; actor_role = role }

-- What a run of the service on a database computes with.
service_steps : Unit {0}
unfolding submit_service approve_service reject_service perform validate_submit validate_approve
    validate_reject get_time_entry get_snapshot submit_time_entry approve_time_entry
    reject_time_entry apply_transition apply_transition_tx trim_space tx_steps
service_steps = tt

submits : (submit_service (repo_store 9) (by "contractor" 10) entries_db).0 ≡ none
unfolding service_steps
submits = refl

approves : (approve_service (repo_store 9) (by "accountant" 11) entries_db).0 ≡ none
unfolding service_steps
approves = refl

rejects : (reject_service (repo_store 9) (by "owner" 11) (codes "no receipt") entries_db).0 ≡ none
unfolding service_steps
rejects = refl

-- Another's entry.
abbrev refusal : UseError
refusal = record {
  kind = kind_forbidden;
  message = "only owner or accountant can approve";
  cause = domain_error forbidden;
}

refuses : (handle 9 (approving_by (by "contractor" 11)) entries_db).0 ≡ some refusal
unfolding handle service_steps
refuses = refl

abbrev two_requests : List (ℕ × Request)
two_requests =
    (8, submitting_by (by "contractor" 10))
    ∷ (9, rejecting_by (by "owner" 11) (codes "no receipt"))
    ∷ []

handle_all-IsLogged_example : IsLogged (handle_all two_requests entries_db).store
handle_all-IsLogged_example = handle_all-IsLogged two_requests entries_db entries_store-IsLogged

handle_forbidden_example :
    (handle 9 (approving_by (by "contractor" 11)) entries_db).1.store ≡ entries_store
handle_forbidden_example =
    handle_forbidden 9 (approving_by (by "contractor" 11)) entries_db refusal refl refuses

apply_transition-Outcome_example :
    Outcome
      (λ u s'.
        Moved 1 10 5 TimeEntryAction.submit TimeEntryStatus.draft TimeEntryStatus.submitted [] 8
          entries_store s')
      (λ e b s'.
        Refused 1 10 5 TimeEntryAction.submit TimeEntryStatus.draft TimeEntryStatus.submitted [] 8
          entries_store e)
      entries_db
      (apply_transition 1 10 5 TimeEntryAction.submit TimeEntryStatus.draft
        TimeEntryStatus.submitted [] 8 entries_db)
apply_transition-Outcome_example =
    apply_transition-Outcome 1 10 5 TimeEntryAction.submit TimeEntryStatus.draft
      TimeEntryStatus.submitted [] 8 entries_db

submit_service_authorised_example :
    let loaded = get_snapshot 1 10 entries_db in
    let done = submit_time_entry 1 10 5 9 loaded.1 in
    (rec : Snapshot) × (loaded.0 ≡ ok rec)
    × ((by "contractor" 10).actor_role ≡ "contractor")
    × (rec.user_id ≡ 5)
    × (rec.status ≡ TimeEntryStatus.draft)
    × (done.0 ≡ ok tt)
    × ((submit_service (repo_store 9) (by "contractor" 10) entries_db).1 ≡ done.1)
submit_service_authorised_example =
    submit_service_authorised (repo_store 9) (by "contractor" 10) entries_db submits

approve_service_authorised_example :
    let loaded = get_snapshot 1 11 entries_db in
    let done = approve_time_entry 1 11 5 9 loaded.1 in
    (rec : Snapshot) × (loaded.0 ≡ ok rec)
    × (((by "accountant" 11).actor_role ≡ "owner")
        ⊎ ((by "accountant" 11).actor_role ≡ "accountant"))
    × (rec.status ≡ TimeEntryStatus.submitted)
    × (done.0 ≡ ok tt)
    × ((approve_service (repo_store 9) (by "accountant" 11) entries_db).1 ≡ done.1)
approve_service_authorised_example =
    approve_service_authorised (repo_store 9) (by "accountant" 11) entries_db approves

reject_service_authorised_example :
    let loaded = get_snapshot 1 11 entries_db in
    let done = reject_time_entry 1 11 5 (codes "no receipt") 9 loaded.1 in
    (rec : Snapshot) × (loaded.0 ≡ ok rec)
    × (((by "owner" 11).actor_role ≡ "owner") ⊎ ((by "owner" 11).actor_role ≡ "accountant"))
    × (is_blank (codes "no receipt") ≡ false)
    × (rec.status ≡ TimeEntryStatus.submitted)
    × (done.0 ≡ ok tt)
    × ((reject_service (repo_store 9) (by "owner" 11) (codes "no receipt") entries_db).1 ≡ done.1)
reject_service_authorised_example =
    reject_service_authorised (repo_store 9) (by "owner" 11) (codes "no receipt") entries_db rejects

-- An approved entry of ninety minutes, billed.
abbrev approved_db : Db
approved_db = record {
  store = record empty_store { time_entries = entry 12 TimeEntryStatus.approved ∷ [] };
  faults = [];
}

abbrev whole_year : GenerateParams
whole_year = record { from_date = 1; to_date = 365; currency = codes "usd"; due_at = none }

abbrev show_nothing : ℕ → Text
show_nothing date = []

generate_invoice-Outcome_example :
    Outcome
      (λ i s'.
        (c : Text) × (normalize_currency whole_year.currency ≡ ok c)
        × Generated show_nothing (λ id. id) 50 1 8 whole_year c approved_db.store i s')
      (λ e b s'.
        NotGenerated show_nothing (λ id. id) 50 1 8 whole_year approved_db.store e
        ⊎ ((e ≡ unsupported_currency)
            × (normalize_currency whole_year.currency ≡ err unsupported_currency)))
      approved_db
      (generate_invoice show_nothing (λ id. id) 50 1 8 whole_year approved_db)
generate_invoice-Outcome_example =
    generate_invoice-Outcome show_nothing (λ id. id) 50 1 8 whole_year approved_db
      (record { minutes = 90; rate = 10000; minutes_eq = refl; rate_eq = refl }, tt)

bills_ninety_minutes :
    (generate_invoice show_nothing (λ id. id) 50 1 8 whole_year approved_db).1.store.line_items
    ≡ line_of show_nothing (λ id. id) 50 1 8 (entry 12 TimeEntryStatus.approved) (pos 15000) ∷ []
unfolding generate_invoice generate_tx bill order_entries hours_hundredths line_amount add_line
    allocate_next_invoice_number normalize_currency to_upper add64 sub64 mul64 quot service_steps
bills_ninety_minutes = refl
