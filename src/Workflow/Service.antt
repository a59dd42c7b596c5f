-- ===== src/Workflow/Service.antt =====
-- `TimeEntryWorkflowService` of internal/usecase/time_entry_workflow.go, over its store interface.
use Prim.Native.String.{String}
use consulting_revenue_platf.Prelude.{ℕ, ◌≡◌, not, Option, none, some, ◌==◌, if◌then◌else◌}
use consulting_revenue_platf.Prelude.Text.{Text}
use consulting_revenue_platf.Store.{
  Error, time_entry_not_found, invalid_time_entry_transition, reject_reason_required, Result, ok,
  err,
}
use consulting_revenue_platf.Workflow.Domain.{
  DomainError, invalid_transition, forbidden, reject_reason, Snapshot, is_blank, validate_submit,
  validate_approve, validate_reject,
}

pub data ErrorKind : Type 0 where
  unauthorized kind_forbidden validation conflict not_found internal : ErrorKind

pub data Cause : Type 0 where
  repo_error : Error → Cause
  domain_error : DomainError → Cause

-- `usecase.Error`.
pub record UseError : Type 0 where
  pub kind : ErrorKind
  pub message : String
  pub cause : Cause

-- `newError`.
abbrev pub new_error : ErrorKind → String → Cause → Option UseError
new_error k m c = some (record { kind = k; message = m; cause = c })

-- `TimeEntryWorkflowStore`: its operations, and that reading an entry changes no data.
pub record WorkflowStore (V : Type 0) : Type 1 where
  pub State : Type 0
  pub view : State → V
  pub get : ℕ → ℕ → State → Result Snapshot × State
  pub submit_entry : ℕ → ℕ → ℕ → State → Result (Unit {0}) × State
  pub approve_entry : ℕ → ℕ → ℕ → State → Result (Unit {0}) × State
  pub reject_entry : ℕ → ℕ → ℕ → Text → State → Result (Unit {0}) × State
  pub get_reads : (org id : ℕ) (s : State) → view (get org id s).1 ≡ view s

-- `TimeEntryActionInput`.
pub record ActionInput : Type 0 where
  pub organization_id : ℕ
  pub entry_id : ℕ
  pub actor_user_id : ℕ
  pub actor_role : String

-- What an error of loading the entry becomes.
abbrev pub load_error : Error → Option UseError
load_error time_entry_not_found =
    new_error not_found "time entry not found" (repo_error time_entry_not_found)
load_error e = new_error internal "could not load time entry" (repo_error e)

-- What an error of the store's action becomes.
abbrev pub store_error : String → String → Error → Option UseError
store_error conflicting failed invalid_time_entry_transition =
    new_error conflict conflicting (repo_error invalid_time_entry_transition)
store_error conflicting failed time_entry_not_found =
    new_error not_found "time entry not found" (repo_error time_entry_not_found)
store_error conflicting failed e = new_error internal failed (repo_error e)

abbrev pub reject_store_error : Error → Option UseError
reject_store_error reject_reason_required =
    new_error validation "reject reason is required" (repo_error reject_reason_required)
reject_store_error e =
    store_error "time entry is not in submitted state" "could not reject time entry" e

abbrev pub submit_refusal : Snapshot → ActionInput → DomainError → Option UseError
submit_refusal rec input invalid_transition =
    new_error conflict "time entry is not in draft state" (domain_error invalid_transition)
submit_refusal rec input forbidden =
    if not (rec.user_id == input.actor_user_id)
    then new_error kind_forbidden "contractors may only submit their own entries"
        (domain_error forbidden)
    else new_error kind_forbidden "only contractors can submit time entries"
        (domain_error forbidden)
submit_refusal rec input e = new_error internal "could not submit time entry" (domain_error e)

abbrev pub approve_refusal : DomainError → Option UseError
approve_refusal invalid_transition =
    new_error conflict "time entry is not in submitted state" (domain_error invalid_transition)
approve_refusal forbidden =
    new_error kind_forbidden "only owner or accountant can approve" (domain_error forbidden)
approve_refusal e = new_error internal "could not approve time entry" (domain_error e)

abbrev pub reject_refusal : DomainError → Option UseError
reject_refusal reject_reason =
    new_error validation "reject reason is required" (domain_error reject_reason)
reject_refusal invalid_transition =
    new_error conflict "time entry is not in submitted state" (domain_error invalid_transition)
reject_refusal forbidden =
    new_error kind_forbidden "only owner or accountant can reject" (domain_error forbidden)

module _ {V : Type 0} (w : WorkflowStore V) where
  open w use {State, get, submit_entry, approve_entry, reject_entry}

  -- What every action does: load, validate, act. `none` is the nil error.
  unfoldable pub perform :
      (Snapshot → Option DomainError)
      → (Snapshot → DomainError → Option UseError)
      → (State → Result (Unit {0}) × State)
      → (Error → Option UseError)
      → Result Snapshot × State
      → Option UseError × State
  perform check refusal act failure (err e, s) = (load_error e, s)
  perform check refusal act failure (ok rec, s) = elim (check rec) [
    | some e ↦ (refusal rec e, s)
    | none ↦ let (r, s') = act s in elim r [ ok _ ↦ (none, s') | err e ↦ (failure e, s') ]
  ]

  -- `Submit`.
  unfoldable pub submit_service : ActionInput → State → Option UseError × State
  submit_service input s =
      perform (λ rec. validate_submit rec.status input.actor_role rec.user_id input.actor_user_id)
        (λ rec e. submit_refusal rec input e)
        (submit_entry input.organization_id input.entry_id input.actor_user_id)
        (store_error "time entry is not in draft state" "could not submit time entry")
        (get input.organization_id input.entry_id s)

  -- `Approve`.
  unfoldable pub approve_service : ActionInput → State → Option UseError × State
  approve_service input s =
      perform (λ rec. validate_approve rec.status input.actor_role) (λ rec e. approve_refusal e)
        (approve_entry input.organization_id input.entry_id input.actor_user_id)
        (store_error "time entry is not in submitted state" "could not approve time entry")
        (get input.organization_id input.entry_id s)

  -- `Reject`.
  unfoldable pub reject_service : ActionInput → Text → State → Option UseError × State
  reject_service input reason s =
      if is_blank reason
      then (new_error validation "reject reason is required" (domain_error reject_reason), s)
      else perform (λ rec. validate_reject rec.status input.actor_role reason)
          (λ rec e. reject_refusal e)
          (reject_entry input.organization_id input.entry_id input.actor_user_id reason)
          reject_store_error (get input.organization_id input.entry_id s)
