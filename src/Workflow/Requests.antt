-- ===== src/Workflow/Requests.antt =====
-- The service over the database: any series of requests, made by anyone, keeps the rows and the event
-- log in agreement, whatever calls the driver fails.
use consulting_revenue_platf.Prelude.{
  ℕ, ◌≡◌, sym, inl, inr, Bool-cases, Option-cases, Option, some, List, [], ◌∷◌,
}
use mathlib.Core.Path.{subst}
use consulting_revenue_platf.Prelude.Text.{Text, trim_space}
use consulting_revenue_platf.Store.{TimeEntryStatus, TimeEntryAction, Result, ok, err, Db, Outcome}
use consulting_revenue_platf.TimeEntry.Transition.{
  apply_transition, submit_time_entry, approve_time_entry, reject_time_entry, null_if_empty,
}
use consulting_revenue_platf.TimeEntry.Lifecycle.{Moved, Refused, apply_transition-Outcome}
use consulting_revenue_platf.TimeEntry.Log.{
  Edge, submitting, approving, rejecting, IsLogged, Moved-IsLogged,
}
use consulting_revenue_platf.Workflow.Domain.{is_blank}
use consulting_revenue_platf.Workflow.Service.{
  UseError, kind_forbidden, ActionInput, submit_service, approve_service, reject_service,
}
use consulting_revenue_platf.Workflow.Repo.{repo_store, get_snapshot, get_snapshot-store}
use consulting_revenue_platf.Workflow.Authorised.{forbidden_unchanged}
use consulting_revenue_platf.Workflow.Endings.{
  Left, perform-Left, reject_service-Left, reject_service-blank,
}

pub data Request : Type 0 where
  submitting_by approving_by : ActionInput → Request
  rejecting_by : ActionInput → Text → Request

-- One request, at a time that the database gives it.
unfoldable pub handle : ℕ → Request → Db → Option UseError × Db
handle now (submitting_by input) d = submit_service (repo_store now) input d
handle now (approving_by input) d = approve_service (repo_store now) input d
handle now (rejecting_by input reason) d = reject_service (repo_store now) input reason d

unfoldable pub handle_all : List (ℕ × Request) → Db → Db
handle_all [] d = d
handle_all ((now, r) ∷ rs) d = handle_all rs (handle now r d).1

-- A transition of the repository keeps the agreement.
transition-IsLogged :
    (org id actor : ℕ) (reason : Text) (now : ℕ) {from to : TimeEntryStatus}
    {action : TimeEntryAction} (g : Edge from action to) (d : Db) (r : Result (Unit {0}) × Db)
    → Outcome
        (λ u s'. Moved org id actor action from to reason now d.store s')
        (λ e b s'. Refused org id actor action from to reason now d.store e)
        d
        r
    → IsLogged d.store
    → IsLogged r.1.store
transition-IsLogged org id actor reason now g d (ok u, d') o h =
    Moved-IsLogged org id actor reason now g d.store d'.store h o
transition-IsLogged org id actor reason now g d (err e, d') o h = subst IsLogged (sym o.0) h

apply_transition-IsLogged :
    (org id actor : ℕ) (action : TimeEntryAction) (from to : TimeEntryStatus) (reason : Text)
    (now : ℕ) (g : Edge from action to) (d : Db)
    → IsLogged d.store
    → IsLogged (apply_transition org id actor action from to reason now d).1.store
apply_transition-IsLogged org id actor action from to reason now g d h =
    transition-IsLogged org id actor reason now g d
      (apply_transition org id actor action from to reason now d)
      (apply_transition-Outcome org id actor action from to reason now d) h

module _ (org id actor now : ℕ) (d : Db) (h : IsLogged d.store) where
  submit_time_entry-IsLogged : IsLogged (submit_time_entry org id actor now d).1.store
  unfolding submit_time_entry
  submit_time_entry-IsLogged = apply_transition-IsLogged org id actor _ _ _ [] now submitting d h

  approve_time_entry-IsLogged : IsLogged (approve_time_entry org id actor now d).1.store
  unfolding approve_time_entry
  approve_time_entry-IsLogged = apply_transition-IsLogged org id actor _ _ _ [] now approving d h

  reject_time_entry-IsLogged :
      (reason : Text) → IsLogged (reject_time_entry org id actor reason now d).1.store
  unfolding reject_time_entry
  reject_time_entry-IsLogged reason = elim (Option-cases (null_if_empty (trim_space reason))) [
    | inl e ↦ rw (e, reject_time_entry) h
    | inr (t, e) ↦
        rw (e, reject_time_entry)
          (apply_transition-IsLogged org id actor _ _ _ (trim_space reason) now rejecting d h)
  ]

-- An action of the service keeps what loading and the store's action keep.
Left-IsLogged :
    (now : ℕ) (act : Db → Result (Unit {0}) × Db) (org id : ℕ) (d d' : Db)
    → ((e : Db) → IsLogged e.store → IsLogged (act e).1.store)
    → IsLogged d.store
    → Left (repo_store now) act (get_snapshot org id d).1 d'
    → IsLogged d'.store
Left-IsLogged now act org id d d' keeps h l =
    let loaded : IsLogged (get_snapshot org id d).1.store =
      subst IsLogged (sym (get_snapshot-store org id d)) h in
    elim l [
      | inl e ↦ subst (λ (x : Db). IsLogged x.store) (sym e) loaded
      | inr e ↦ subst (λ (x : Db). IsLogged x.store) (sym e) (keeps _ loaded)
    ]

handle-IsLogged :
    (now : ℕ) (r : Request) (d : Db) → IsLogged d.store → IsLogged (handle now r d).1.store
unfolding handle submit_service approve_service
handle-IsLogged now (submitting_by i) d h =
    Left-IsLogged now (submit_time_entry i.organization_id i.entry_id i.actor_user_id now)
      i.organization_id i.entry_id d _
      (λ e. submit_time_entry-IsLogged i.organization_id i.entry_id i.actor_user_id now e) h
      (perform-Left (repo_store now) _ _ _ _ (get_snapshot i.organization_id i.entry_id d))
handle-IsLogged now (approving_by i) d h =
    Left-IsLogged now (approve_time_entry i.organization_id i.entry_id i.actor_user_id now)
      i.organization_id i.entry_id d _
      (λ e. approve_time_entry-IsLogged i.organization_id i.entry_id i.actor_user_id now e) h
      (perform-Left (repo_store now) _ _ _ _ (get_snapshot i.organization_id i.entry_id d))
handle-IsLogged now (rejecting_by i reason) d h = elim (Bool-cases (is_blank reason)) [
  | inl b ↦
      subst (λ (x : Db). IsLogged x.store)
        (sym (reject_service-blank (repo_store now) i reason d b)) h
  | inr b ↦
      Left-IsLogged now (reject_time_entry i.organization_id i.entry_id i.actor_user_id reason now)
        i.organization_id i.entry_id d _
        (λ e k.
          reject_time_entry-IsLogged i.organization_id i.entry_id i.actor_user_id now e k reason)
        h (reject_service-Left (repo_store now) i reason d b)
]

-- After any series of requests to submit, approve and reject time entries, by any actors and with any
-- calls of the driver failed, every entry on no invoice has the status that its event log gives it, every
-- entry on an invoice is invoiced and its log ends in approved, and the log of every entry is a chain
-- of moves of the lifecycle, if it was so before.
pub handle_all-IsLogged :
    (rs : List (ℕ × Request)) (d : Db) → IsLogged d.store → IsLogged (handle_all rs d).store
unfolding handle_all
handle_all-IsLogged [] d h = h
handle_all-IsLogged ((now, r) ∷ rs) d h =
    handle_all-IsLogged rs (handle now r d).1 (handle-IsLogged now r d h)

-- Whoever is refused as forbidden has changed no row.
pub handle_forbidden :
    (now : ℕ) (r : Request) (d : Db) (x : UseError)
    → x.kind ≡ kind_forbidden
    → (handle now r d).0 ≡ some x
    → (handle now r d).1.store ≡ d.store
unfolding handle
handle_forbidden now (submitting_by i) d x k h =
    (forbidden_unchanged (repo_store now) i [] d x k).0 h
handle_forbidden now (approving_by i) d x k h =
    (forbidden_unchanged (repo_store now) i [] d x k).1 h
handle_forbidden now (rejecting_by i reason) d x k h =
    (forbidden_unchanged (repo_store now) i reason d x k).2 h
