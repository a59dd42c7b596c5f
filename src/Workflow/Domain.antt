-- ===== src/Workflow/Domain.antt =====
-- The checks of internal/domain/workflow.go: role, owner and status, before the store is touched.
use Prim.Native.String.{String}
use text.Mathlib.Text.{◌==◌ as str_eq}
use consulting_revenue_platf.Prelude.{
  ℕ, Bool, true, false, ◌&&◌, not, Option, none, some, [], ◌∷◌, ◌==◌, if◌then◌else◌,
}
use consulting_revenue_platf.Prelude.Text.{Text, trim_space}
use consulting_revenue_platf.Store.{TimeEntryStatus}
use consulting_revenue_platf.TimeEntry.Transition.{same_status}

pub data DomainError : Type 0 where
  invalid_transition forbidden reject_reason : DomainError

-- `TimeEntrySnapshot`.
pub record Snapshot : Type 0 where
  pub id : ℕ
  pub organization_id : ℕ
  pub user_id : ℕ
  pub status : TimeEntryStatus

-- `strings.TrimSpace(s) == ""`.
abbrev pub is_blank : Text → Bool
unfolding trim_space
is_blank s = elim (trim_space s) [ [] ↦ true | _ ∷ _ ↦ false ]

-- `ValidateTimeEntrySubmit`; `none` is the nil error.
unfoldable pub validate_submit : TimeEntryStatus → String → ℕ → ℕ → Option DomainError
validate_submit current actor_role owner_user_id actor_user_id =
    if not (str_eq actor_role "contractor")
    then some forbidden
    else if not (owner_user_id == actor_user_id)
    then some forbidden
    else if not (same_status current TimeEntryStatus.draft)
    then some invalid_transition
    else none

-- `ValidateTimeEntryApprove`.
unfoldable pub validate_approve : TimeEntryStatus → String → Option DomainError
validate_approve current actor_role =
    if not (str_eq actor_role "owner") && not (str_eq actor_role "accountant")
    then some forbidden
    else if not (same_status current TimeEntryStatus.submitted)
    then some invalid_transition
    else none

-- `ValidateTimeEntryReject`.
unfoldable pub validate_reject : TimeEntryStatus → String → Text → Option DomainError
validate_reject current actor_role reason =
    if not (str_eq actor_role "owner") && not (str_eq actor_role "accountant")
    then some forbidden
    else if is_blank reason
    then some reject_reason
    else if not (same_status current TimeEntryStatus.submitted)
    then some invalid_transition
    else none
