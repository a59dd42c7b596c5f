-- ===== src/Workflow/Repo.antt =====
-- `RepoTimeEntryWorkflowStore` of internal/usecase/time_entry_workflow.go: the store interface filled
-- by the repository functions on the pool.
use consulting_revenue_platf.Prelude.{ℕ, ◌≡◌, refl, some, find}
use consulting_revenue_platf.Store.{
  Store, TimeEntry, time_entry_not_found, Result, ok, err, Tx, ◌>>=◌, query, or_throw, Db, auto,
  Fetched, auto-Fetched,
}
use consulting_revenue_platf.TimeEntry.Transition.{
  is_entry, submit_time_entry, approve_time_entry, reject_time_entry,
}
use consulting_revenue_platf.Workflow.Domain.{Snapshot}
use consulting_revenue_platf.Workflow.Service.{WorkflowStore}

-- `GetTimeEntry` of internal/repo/time_entries.go.
abbrev get_entry_tx : ℕ → ℕ → Tx TimeEntry
get_entry_tx org id = do
  row ← query (λ s. find (is_entry org id) s.time_entries)
  or_throw row time_entry_not_found

unfoldable pub get_time_entry : ℕ → ℕ → Db → Result TimeEntry × Db
unfolding auto
get_time_entry org id = auto (get_entry_tx org id)

-- The snapshot of a row.
abbrev pub snapshot_of : TimeEntry → Snapshot
snapshot_of e = record {
  id = e.id;
  organization_id = e.organization_id;
  user_id = e.user_id;
  status = e.status;
}

abbrev snapshot_result : Result TimeEntry → Result Snapshot
snapshot_result (ok e) = ok (snapshot_of e)
snapshot_result (err x) = err x

unfoldable pub get_snapshot : ℕ → ℕ → Db → Result Snapshot × Db
unfolding get_time_entry
get_snapshot org id d = let (r, d') = get_time_entry org id d in (snapshot_result r, d')

-- Loading an entry gives the snapshot of its row, or fails, and changes no table.
abbrev pub Loaded : ℕ → ℕ → Db → Result Snapshot × Db → Type 0
Loaded org id d (ok r, d') =
    ((e : TimeEntry) × (find (is_entry org id) d.store.time_entries ≡ some e) × (r ≡ snapshot_of e))
    × (d'.store ≡ d.store)
Loaded org id d (err x, d') = d'.store ≡ d.store

snapshot-Loaded :
    (org id : ℕ) (d : Db) (r : Result TimeEntry × Db)
    → Fetched (find (is_entry org id) d.store.time_entries) time_entry_not_found d r
    → Loaded org id d (snapshot_result r.0, r.1)
snapshot-Loaded org id d (ok e, d') h = ((e, h.0, refl), h.1)
snapshot-Loaded org id d (err x, d') h = h.1

pub get_snapshot-Loaded : (org id : ℕ) (d : Db) → Loaded org id d (get_snapshot org id d)
unfolding get_snapshot
get_snapshot-Loaded org id d =
    snapshot-Loaded org id d (get_time_entry org id d)
      (auto-Fetched (λ s. find (is_entry org id) s.time_entries) time_entry_not_found d)

Loaded-store :
    (org id : ℕ) (d : Db) (r : Result Snapshot × Db) → Loaded org id d r → r.1.store ≡ d.store
Loaded-store org id d (ok r, d') h = h.1
Loaded-store org id d (err x, d') h = h

pub get_snapshot-store : (org id : ℕ) (d : Db) → (get_snapshot org id d).1.store ≡ d.store
get_snapshot-store org id d =
    Loaded-store org id d (get_snapshot org id d) (get_snapshot-Loaded org id d)

-- The time of the call is the database's `NOW()`.
abbrev pub repo_store : ℕ → WorkflowStore Store
repo_store now = record {
  State = Db;
  view = λ d. d.store;
  get = get_snapshot;
  submit_entry = λ org id actor. submit_time_entry org id actor now;
  approve_entry = λ org id actor. approve_time_entry org id actor now;
  reject_entry = λ org id actor reason. reject_time_entry org id actor reason now;
  get_reads = get_snapshot-store;
}
