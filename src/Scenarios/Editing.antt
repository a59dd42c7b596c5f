-- ===== src/Scenarios/Editing.antt =====
-- Runs on listing, creating and patching time entries in the repository.
use consulting_revenue_platf.Prelude.{◌≡◌, refl, false, none, some, List, [], ◌∷◌, All, arith}
use consulting_revenue_platf.Prelude.Int.{pos}
use consulting_revenue_platf.Prelude.Text.{codes, trim_space}
use consulting_revenue_platf.Store.{
  TimeEntryStatus, TimeEntry, BillingMode, Project, User, Role, Store, Db, ok, tx_steps,
}
use consulting_revenue_platf.Store.Pool.{Pool, pool_steps}
use consulting_revenue_platf.Invoice.Generate.{order_entries}
use consulting_revenue_platf.TimeEntry.Page.{Filters, is_listed, list_time_entries}
use consulting_revenue_platf.TimeEntry.Pages.{follow, follow-list_time_entries}
use consulting_revenue_platf.TimeEntry.Edit.{
  Patch, validate_project, create_time_entry, update_time_entry,
}
use consulting_revenue_platf.TimeEntry.Edited.{Edits, update_time_entry-writes}
use consulting_revenue_platf.TimeEntry.Bounded.{
  IsBounded, IsKept, EditRequest, creating, patching, edit, edit_all, edit_all-IsKept,
}
use consulting_revenue_platf.Scenarios.{empty_store}
use consulting_revenue_platf.Scenarios.Entries.{entry}
use consulting_revenue_platf.Scenarios.Sessions.{sample_member}

abbrev sample_project : Project
sample_project = record {
  id = 7;
  organization_id = 1;
  client_id = 70;
  name = codes "Site";
  billing_mode = BillingMode.hourly;
  default_rate_minor = pos 10000;
  archived = false;
  created_at = 0;
  updated_at = 0;
}

abbrev sample_user : User
sample_user = record {
  id = 5;
  email = codes "a@b.c";
  password_hash = codes "pw";
  full_name = codes "Ada";
}

abbrev pub three_entries : Store
three_entries = record empty_store {
  time_entries =
      entry 2 TimeEntryStatus.draft
      ∷ record (entry 3 TimeEntryStatus.draft) { user_id = 6 }
      ∷ entry 1 TimeEntryStatus.approved
      ∷ [];
  projects = sample_project ∷ [];
  users = sample_user ∷ [];
  memberships = sample_member Role.contractor ∷ [];
}

abbrev all_entries : Filters
all_entries = record {
  project_id = none;
  user_id = none;
  status = none;
  from_date = none;
  to_date = none;
}

-- Pages.
abbrev three_ids : List TimeEntry
three_ids =
    entry 1 TimeEntryStatus.approved
    ∷ entry 2 TimeEntryStatus.draft
    ∷ record (entry 3 TimeEntryStatus.draft) { user_id = 6 }
    ∷ []

abbrev three_db : Db
three_db = record { store = three_entries; faults = [] }

lists : (list_time_entries 1 all_entries three_db).0 ≡ ok three_ids
unfolding list_time_entries is_listed order_entries tx_steps
lists = refl

follow-list_time_entries_example : follow 1 all_entries (pos 2) 4 none three_db ≡ some three_ids
follow-list_time_entries_example =
    follow-list_time_entries 1 all_entries (pos 2) three_entries
      (
        (λ h. omega (arith, h), (λ h. omega (arith, h), tt)),
        ((λ h. omega (arith, h), tt), (tt, tt)),
      )
      4 three_ids lists (omega arith)

-- Edits.
abbrev longer : Patch
longer = record {
  project_id = some 7;
  work_date = none;
  minutes = some (pos 120);
  hourly_rate_minor = none;
  notes = some (codes " a ");
}

abbrev pub three_pool : Pool
three_pool = record { store = three_entries; faults = []; others = []; writes = [] }

edit_steps : Unit {0}
unfolding pool_steps validate_project create_time_entry update_time_entry trim_space
edit_steps = tt

abbrev longer_entry : TimeEntry
longer_entry = record (entry 2 TimeEntryStatus.draft) {
  minutes = pos 120;
  notes = some (codes "a");
  updated_at = 9;
}

patches :
    (update_time_entry 1 2 longer 9 three_pool).1.store.time_entries
    ≡ longer_entry
      ∷ record (entry 3 TimeEntryStatus.draft) { user_id = 6 }
      ∷ entry 1 TimeEntryStatus.approved
      ∷ []
unfolding edit_steps
patches = refl

update_time_entry-writes_example :
    All (λ w. Edits 1 2 w.0 w.1) (update_time_entry 1 2 longer 9 three_pool).1.writes
update_time_entry-writes_example = update_time_entry-writes 1 2 longer 9 three_pool refl

three_entries-IsKept : IsKept three_entries
three_entries-IsKept = record {
  bounded = (in_bounds, (in_bounds, (in_bounds, tt)));
  keys = (
    (λ h. omega (arith, h), (λ h. omega (arith, h), tt)),
    ((λ h. omega (arith, h), tt), (tt, tt)),
  );
}
  where
    in_bounds : IsBounded (pos 90) (pos 10000)
    in_bounds = record {
      m = 90;
      r = 10000;
      minutes_eq = refl;
      rate_eq = refl;
      not_none = omega arith;
      in_day = omega arith;
    }

-- The last request is refused, as an entry of a day and a minute.
abbrev edits : List EditRequest
edits =
    creating 4 1 7 5 100 (pos 30) (pos 0) none 8
    ∷ patching 1 2 longer 9
    ∷ patching 1 2 (record longer { minutes = some (pos 1441) }) 10
    ∷ []

edits_run :
    (edit_all edits three_pool).store.time_entries
    ≡ record (entry 4 TimeEntryStatus.draft) {
      minutes = pos 30;
      hourly_rate_minor = pos 0;
      updated_at = 8;
    }
      ∷ longer_entry
      ∷ record (entry 3 TimeEntryStatus.draft) { user_id = 6 }
      ∷ entry 1 TimeEntryStatus.approved
      ∷ []
unfolding edit_all edit edit_steps
edits_run = refl

edit_all-IsKept_example : IsKept (edit_all edits three_pool).store
edit_all-IsKept_example = edit_all-IsKept edits three_pool tt three_entries-IsKept

-- Another's patch of the minutes, between the read and the write of a patch of the date, is lost.
abbrev meanwhile : Pool
meanwhile = record three_pool {
  others =
      (λ s. s)
      ∷ (λ s. (update_time_entry 1 2 longer 8 (record three_pool { store = s })).1.store)
      ∷ [];
}

loses_update :
    (update_time_entry 1 2
      (record {
        project_id = none;
        work_date = some 101;
        minutes = none;
        hourly_rate_minor = none;
        notes = none;
      })
      9
      meanwhile).1.store.time_entries
    ≡ record (entry 2 TimeEntryStatus.draft) { work_date = 101; updated_at = 9 }
      ∷ record (entry 3 TimeEntryStatus.draft) { user_id = 6 }
      ∷ entry 1 TimeEntryStatus.approved
      ∷ []
unfolding edit_steps
loses_update = refl
