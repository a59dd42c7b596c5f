-- ===== src/Workflow/Endings.antt =====
-- How the service's actions end, over any store.
use Prim.Native.String.{String}
use text.Mathlib.TextEquality.{eq_iff}
use consulting_revenue_platf.Prelude.{
  ℕ, ◌≡◌, refl, ◌⊎◌, inl, inr, true, false, Option, none, some, arith, ◌==◌, Bool-cases,
}
use consulting_revenue_platf.Prelude.Text.{Text}
use consulting_revenue_platf.Store.{
  TimeEntryStatus, Error, Result, ok, err, time_entry_not_found, invalid_time_entry_transition,
  reject_reason_required,
}
use consulting_revenue_platf.Workflow.Domain.{
  DomainError, forbidden, invalid_transition, reject_reason, Snapshot, is_blank, validate_submit,
  validate_approve, validate_reject,
}
use consulting_revenue_platf.Workflow.Service.{
  kind_forbidden, UseError, WorkflowStore, ActionInput, perform, submit_service, approve_service,
  reject_service, load_error, store_error, reject_store_error, submit_refusal, approve_refusal,
  reject_refusal,
}

pub validate_submit-none :
    (current : TimeEntryStatus) (role : String) (owner actor : ℕ)
    → validate_submit current role owner actor ≡ none
    → (role ≡ "contractor") × (owner ≡ actor) × (current ≡ TimeEntryStatus.draft)
unfolding validate_submit
validate_submit-none current role owner actor h = ground (arith, eq_iff role "contractor")

pub validate_approve-none :
    (current : TimeEntryStatus) (role : String)
    → validate_approve current role ≡ none
    → ((role ≡ "owner") ⊎ (role ≡ "accountant")) × (current ≡ TimeEntryStatus.submitted)
unfolding validate_approve
validate_approve-none current role h = ground (arith, eq_iff role "owner", eq_iff role "accountant")

pub validate_reject-none :
    (current : TimeEntryStatus) (role : String) (reason : Text)
    → validate_reject current role reason ≡ none
    → ((role ≡ "owner") ⊎ (role ≡ "accountant"))
      × (is_blank reason ≡ false)
      × (current ≡ TimeEntryStatus.submitted)
unfolding validate_reject
validate_reject-none current role reason h =
    ground (arith, eq_iff role "owner", eq_iff role "accountant")

-- An error is an error, of a kind that the domain check alone gives.
abbrev IsFailure : Option UseError → Type 0
IsFailure none = ⊥
IsFailure (some e) = ¬ (e.kind ≡ kind_forbidden)

abbrev IsError : Option UseError → Type 0
IsError none = ⊥
IsError (some e) = Unit

load_error-IsFailure : (e : Error) → IsFailure (load_error e)
load_error-IsFailure time_entry_not_found = λ h. cc
load_error-IsFailure _ = λ h. cc

store_error-IsFailure : (m k : String) (e : Error) → IsFailure (store_error m k e)
store_error-IsFailure m k time_entry_not_found = λ h. cc
store_error-IsFailure m k invalid_time_entry_transition = λ h. cc
store_error-IsFailure m k _ = λ h. cc

reject_store_error-IsFailure : (e : Error) → IsFailure (reject_store_error e)
reject_store_error-IsFailure reject_reason_required = λ h. cc
reject_store_error-IsFailure time_entry_not_found = λ h. cc
reject_store_error-IsFailure invalid_time_entry_transition = λ h. cc
reject_store_error-IsFailure _ = λ h. cc

submit_refusal-IsError :
    (rec : Snapshot) (input : ActionInput) (e : DomainError) → IsError (submit_refusal rec input e)
submit_refusal-IsError rec input invalid_transition = tt
submit_refusal-IsError rec input reject_reason = tt
submit_refusal-IsError rec input forbidden =
    elim (Bool-cases (rec.user_id == input.actor_user_id)) [ inl t ↦ rw t tt | inr t ↦ rw t tt ]

approve_refusal-IsError : (e : DomainError) → IsError (approve_refusal e)
approve_refusal-IsError invalid_transition = tt
approve_refusal-IsError forbidden = tt
approve_refusal-IsError reject_reason = tt

reject_refusal-IsError : (e : DomainError) → IsError (reject_refusal e)
reject_refusal-IsError invalid_transition = tt
reject_refusal-IsError forbidden = tt
reject_refusal-IsError reject_reason = tt

module _ {V : Type 0} (w : WorkflowStore V) where
  open w use {State, view, get, submit_entry, approve_entry, reject_entry, get_reads}

  -- How an action ends: done, on an entry that was loaded and passed the check, by the store's own
  -- action; refused as forbidden, on the data as they were loaded; or with another error.
  pub Ended :
      (Snapshot → Option DomainError)
      → (State → Result (Unit {0}) × State)
      → Result Snapshot × State
      → Option UseError × State
      → Type 0
  Ended check act loaded (none, s') =
      (rec : Snapshot) × (loaded.0 ≡ ok rec)
      × (check rec ≡ none)
      × ((act loaded.1).0 ≡ ok tt)
      × (s' ≡ (act loaded.1).1)
  Ended check act loaded (some e, s') = e.kind ≡ kind_forbidden → s' ≡ loaded.1

  module _ (check : Snapshot → Option DomainError)
      (refusal : Snapshot → DomainError → Option UseError) (act : State → Result (Unit {0}) × State)
      (failure : Error → Option UseError)
      (refuses : (rec : Snapshot) (e : DomainError) → IsError (refusal rec e))
      (fails : (e : Error) → IsFailure (failure e)) where
    failed-Ended :
        (loaded : Result Snapshot × State) (o : Option UseError) (s : State)
        → IsFailure o
        → Ended check act loaded (o, s)
    unfolding Ended
    failed-Ended loaded none s h = absurd h
    failed-Ended loaded (some e) s h = λ k. absurd (h k)

    refused-Ended :
        (loaded : Result Snapshot × State) (o : Option UseError)
        → IsError o
        → Ended check act loaded (o, loaded.1)
    unfolding Ended
    refused-Ended loaded none h = absurd h
    refused-Ended loaded (some e) h = λ k. refl

    acted-Ended :
        (rec : Snapshot) (s : State) (c : Option DomainError) (r : Result (Unit {0}) × State)
        → check rec ≡ c
        → act s ≡ r
        → Ended check act
            (ok rec, s)
            (elim c [
              | some e ↦ (refusal rec e, s)
              | none ↦ elim r.0 [ ok _ ↦ (none, r.1) | err e ↦ (failure e, r.1) ]
            ])
    unfolding Ended
    acted-Ended rec s (some e) r h k = refused-Ended (ok rec, s) (refusal rec e) (refuses rec e)
    acted-Ended rec s none (ok u, s') h k = (rec, refl, h, rw k refl, rw k refl)
    acted-Ended rec s none (err e, s') h k = failed-Ended (ok rec, s) (failure e) s' (fails e)

    perform-Ended :
        (loaded : Result Snapshot × State)
        → Ended check act loaded (perform w check refusal act failure loaded)
    unfolding perform
    perform-Ended (err e, s) = failed-Ended (err e, s) (load_error e) s (load_error-IsFailure e)
    perform-Ended (ok rec, s) = acted-Ended rec s (check rec) (act s) refl refl

  -- The endings of the three actions.
  abbrev pub submit_check : ActionInput → Snapshot → Option DomainError
  submit_check input rec =
      validate_submit rec.status input.actor_role rec.user_id input.actor_user_id

  pub submit_service-Ended :
      (input : ActionInput) (s : State)
      → Ended
          (submit_check input)
          (submit_entry input.organization_id input.entry_id input.actor_user_id)
          (get input.organization_id input.entry_id s)
          (submit_service w input s)
  unfolding submit_service
  submit_service-Ended input s =
      perform-Ended _ _ _ _ (λ rec e. submit_refusal-IsError rec input e)
        (store_error-IsFailure _ _) _

  pub approve_service-Ended :
      (input : ActionInput) (s : State)
      → Ended
          (λ rec. validate_approve rec.status input.actor_role)
          (approve_entry input.organization_id input.entry_id input.actor_user_id)
          (get input.organization_id input.entry_id s)
          (approve_service w input s)
  unfolding approve_service
  approve_service-Ended input s =
      perform-Ended _ _ _ _ (λ rec e. approve_refusal-IsError e) (store_error-IsFailure _ _) _

  -- With a reason that is not blank, `Reject` ends as the others do.
  pub reject_service-Ended :
      (input : ActionInput) (reason : Text) (s : State)
      → is_blank reason ≡ false
      → Ended
          (λ rec. validate_reject rec.status input.actor_role reason)
          (reject_entry input.organization_id input.entry_id input.actor_user_id reason)
          (get input.organization_id input.entry_id s)
          (reject_service w input reason s)
  unfolding reject_service
  reject_service-Ended input reason s h =
      rw h
        (perform-Ended _ _ _ _ (λ rec e. reject_refusal-IsError e) reject_store_error-IsFailure _)

  pub Ended-done :
      (check : Snapshot → Option DomainError) (act : State → Result (Unit {0}) × State)
      (loaded : Result Snapshot × State) (r : Option UseError × State)
      → Ended check act loaded r
      → r.0 ≡ none
      → (rec : Snapshot) × (loaded.0 ≡ ok rec)
        × (check rec ≡ none)
        × ((act loaded.1).0 ≡ ok tt)
        × (r.1 ≡ (act loaded.1).1)
  unfolding Ended
  Ended-done check act loaded (none, s') h e = h
  Ended-done check act loaded (some x, s') h e = cc

  pub Ended-forbidden :
      (check : Snapshot → Option DomainError) (act : State → Result (Unit {0}) × State)
      (loaded : Result Snapshot × State) (r : Option UseError × State) (x : UseError)
      → Ended check act loaded r
      → r.0 ≡ some x
      → x.kind ≡ kind_forbidden
      → r.1 ≡ loaded.1
  unfolding Ended
  Ended-forbidden check act loaded (none, s') x h e k = cc
  Ended-forbidden check act loaded (some y, s') x h e k = h (ground arith)

  pub reject_service-blank :
      (input : ActionInput) (reason : Text) (s : State)
      → is_blank reason ≡ true
      → (reject_service w input reason s).1 ≡ s
  unfolding reject_service
  reject_service-blank input reason s h = rw h

  pub reject_service-blank_fails :
      (input : ActionInput) (reason : Text) (s : State)
      → is_blank reason ≡ true
      → ¬ ((reject_service w input reason s).0 ≡ none)
  unfolding reject_service
  reject_service-blank_fails input reason s h e = cc (h)

  -- Whatever an action reports, the store is as the loading or as the store's action left it.
  abbrev pub Left : (State → Result (Unit {0}) × State) → State → State → Type 0
  Left act s s' = (s' ≡ s) ⊎ (s' ≡ (act s).1)

  module _ (check : Snapshot → Option DomainError)
      (refusal : Snapshot → DomainError → Option UseError) (act : State → Result (Unit {0}) × State)
      (failure : Error → Option UseError) where
    acted-Left :
        (rec : Snapshot) (s : State) (c : Option DomainError) (r : Result (Unit {0}) × State)
        → act s ≡ r
        → let p : Option UseError × State = elim c [
          | some e ↦ (refusal rec e, s)
          | none ↦ elim r.0 [ ok _ ↦ (none, r.1) | err e ↦ (failure e, r.1) ]
        ] in
          Left act s p.1
    acted-Left rec s (some e) r k = inl refl
    acted-Left rec s none (ok u, s') k = inr (rw k refl)
    acted-Left rec s none (err e, s') k = inr (rw k refl)

    pub perform-Left :
        (loaded : Result Snapshot × State)
        → Left act loaded.1 (perform w check refusal act failure loaded).1
    unfolding perform
    perform-Left (err e, s) = inl refl
    perform-Left (ok rec, s) = acted-Left rec s (check rec) (act s) refl

  pub reject_service-Left :
      (input : ActionInput) (reason : Text) (s : State)
      → is_blank reason ≡ false
      → Left
          (reject_entry input.organization_id input.entry_id input.actor_user_id reason)
          (get input.organization_id input.entry_id s).1
          (reject_service w input reason s).1
  unfolding reject_service
  reject_service-Left input reason s h =
      rw h (perform-Left _ _ _ _ (get input.organization_id input.entry_id s))
