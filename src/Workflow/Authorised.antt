-- ===== src/Workflow/Authorised.antt =====
-- What the service lets through: no action succeeds without the role, the owner and the status that
-- the domain asks for, and a refusal leaves the data as it was.
use consulting_revenue_platf.Prelude.{◌≡◌, false, ap, ◌∙◌, ◌⊎◌, inl, inr, none, some, Bool-cases}
use consulting_revenue_platf.Prelude.Text.{Text}
use consulting_revenue_platf.Store.{TimeEntryStatus, ok}
use consulting_revenue_platf.Workflow.Domain.{Snapshot, is_blank}
use consulting_revenue_platf.Workflow.Service.{
  kind_forbidden, UseError, WorkflowStore, ActionInput, submit_service, approve_service,
  reject_service,
}
use consulting_revenue_platf.Workflow.Endings.{
  validate_submit-none, validate_approve-none, Ended-done, Ended-forbidden, submit_service-Ended,
  approve_service-Ended, reject_service-Ended, reject_service-blank, reject_service-blank_fails,
  validate_reject-none,
}

module _ {V : Type 0} (w : WorkflowStore V) where
  open w use {State, view, get, submit_entry, approve_entry, reject_entry, get_reads}

  -- A submission that succeeds was made by a contractor, on the contractor's own entry, in draft; and
  -- what it did is the store's submission, made after the entry was loaded.
  pub submit_service_authorised :
      (input : ActionInput) (s : State)
      → (submit_service w input s).0 ≡ none
      → let loaded = get input.organization_id input.entry_id s in
        let done = submit_entry input.organization_id input.entry_id input.actor_user_id loaded.1 in
        (rec : Snapshot) × (loaded.0 ≡ ok rec)
        × (input.actor_role ≡ "contractor")
        × (rec.user_id ≡ input.actor_user_id)
        × (rec.status ≡ TimeEntryStatus.draft)
        × (done.0 ≡ ok tt)
        × ((submit_service w input s).1 ≡ done.1)
  submit_service_authorised input s h =
      let (rec, l, c, d, e) = Ended-done w _ _ _ _ (submit_service-Ended w input s) h in
      let (role, owner, status) = validate_submit-none rec.status input.actor_role _ _ c in
      (rec, l, role, owner, status, d, e)

  -- An approval that succeeds was made by an owner or an accountant, on a submitted entry; and what it
  -- did is the store's approval, made after the entry was loaded.
  pub approve_service_authorised :
      (input : ActionInput) (s : State)
      → (approve_service w input s).0 ≡ none
      → let loaded = get input.organization_id input.entry_id s in
        let done =
          approve_entry input.organization_id input.entry_id input.actor_user_id loaded.1 in
        (rec : Snapshot) × (loaded.0 ≡ ok rec)
        × ((input.actor_role ≡ "owner") ⊎ (input.actor_role ≡ "accountant"))
        × (rec.status ≡ TimeEntryStatus.submitted)
        × (done.0 ≡ ok tt)
        × ((approve_service w input s).1 ≡ done.1)
  approve_service_authorised input s h =
      let (rec, l, c, d, e) = Ended-done w _ _ _ _ (approve_service-Ended w input s) h in
      let (role, status) = validate_approve-none rec.status input.actor_role c in
      (rec, l, role, status, d, e)

  -- A rejection that succeeds was made by an owner or an accountant, with a reason that is not blank,
  -- on a submitted entry; and what it did is the store's rejection, made after the entry was loaded.
  pub reject_service_authorised :
      (input : ActionInput) (reason : Text) (s : State)
      → (reject_service w input reason s).0 ≡ none
      → let loaded = get input.organization_id input.entry_id s in
        let done =
          reject_entry input.organization_id input.entry_id input.actor_user_id reason loaded.1 in
        (rec : Snapshot) × (loaded.0 ≡ ok rec)
        × ((input.actor_role ≡ "owner") ⊎ (input.actor_role ≡ "accountant"))
        × (is_blank reason ≡ false)
        × (rec.status ≡ TimeEntryStatus.submitted)
        × (done.0 ≡ ok tt)
        × ((reject_service w input reason s).1 ≡ done.1)
  reject_service_authorised input reason s h = elim (Bool-cases (is_blank reason)) [
    | inl b ↦ absurd (reject_service-blank_fails w input reason s b h)
    | inr b ↦
        let (rec, l, c, d, e) = Ended-done w _ _ _ _ (reject_service-Ended w input reason s b) h in
        let (role, _, status) = validate_reject-none rec.status input.actor_role reason c in
        (rec, l, role, b, status, d, e)
  ]

  -- Whoever is refused as forbidden, in any of the three actions, has changed no data.
  pub forbidden_unchanged :
      (input : ActionInput) (reason : Text) (s : State) (x : UseError)
      → x.kind ≡ kind_forbidden
      → ((submit_service w input s).0 ≡ some x → view (submit_service w input s).1 ≡ view s)
        × ((approve_service w input s).0 ≡ some x → view (approve_service w input s).1 ≡ view s)
        × ((reject_service w input reason s).0 ≡ some x
            → view (reject_service w input reason s).1 ≡ view s)
  forbidden_unchanged input reason s x k = (
    λ h.
        ap view (Ended-forbidden w _ _ _ _ x (submit_service-Ended w input s) h k)
        ∙ get_reads input.organization_id input.entry_id s,
    λ h.
        ap view (Ended-forbidden w _ _ _ _ x (approve_service-Ended w input s) h k)
        ∙ get_reads input.organization_id input.entry_id s,
    λ h. elim (Bool-cases (is_blank reason)) [
      | inl b ↦ ap view (reject_service-blank w input reason s b)
      | inr b ↦
          ap view (Ended-forbidden w _ _ _ _ x (reject_service-Ended w input reason s b) h k)
          ∙ get_reads input.organization_id input.entry_id s
    ],
  )
