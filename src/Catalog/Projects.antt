-- ===== src/Catalog/Projects.antt =====
-- internal/repo/projects.go: creating, reading and patching projects, as statements on the pool.
use consulting_revenue_platf.Prelude.{
  ℕ, Bool, true, false, ◌&&◌, ◌||◌, not, Option, none, some, List, [], ◌∷◌, ◌==◌, if◌then◌else◌,
  find, count_where, update_where,
}
use consulting_revenue_platf.Prelude.Int.{ℤ, pos, ltb_ℤ}
use consulting_revenue_platf.Prelude.Text.{Text, codes, text_eq, trim_space, to_lower}
use consulting_revenue_platf.Store.{
  Client, BillingMode, Project, Store, Result, ok, err, name_required, invalid_billing_mode,
  negative_rate, project_not_found,
}
use consulting_revenue_platf.Store.Pool.{
  Op, constrained, statement, query, or_throw, lift, throw_if, ◌>>=◌, ◌>>◌,
}
use consulting_revenue_platf.TimeEntry.Edit.{is_project, or_else, given_bad}
use consulting_revenue_platf.Catalog.Clients.{not_empty, is_some, get_client, column}

-- `normalizeBillingMode`.
unfoldable pub normalize_billing_mode : Text → Result BillingMode
unfolding trim_space to_lower
normalize_billing_mode s =
    let t = to_lower (trim_space s) in
    if text_eq t (codes "hourly")
    then ok BillingMode.hourly
    else if text_eq t (codes "fixed")
    then ok BillingMode.fixed
    else if text_eq t (codes "non_billable")
    then ok BillingMode.non_billable
    else err invalid_billing_mode

abbrev pub project_id_taken : ℕ → List Project → Bool
project_id_taken id [] = false
project_id_taken id (p ∷ ps) = p.id == id || project_id_taken id ps

abbrev pub new_project : ℕ → ℕ → ℕ → Text → BillingMode → ℤ → ℕ → Project
new_project id org client name mode rate now = record {
  id = id;
  organization_id = org;
  client_id = client;
  name = name;
  billing_mode = mode;
  default_rate_minor = rate;
  archived = false;
  created_at = now;
  updated_at = now;
}

abbrev pub has_id : ℕ → Client → Bool
has_id id c = c.id == id

-- The primary key, and the foreign key to clients.
abbrev pub insert_project : Project → Store → Result (ℕ × Store)
insert_project p s =
    constrained
      (not (project_id_taken p.id s.projects) && is_some (find (has_id p.client_id) s.clients)) p.id
      (record s { projects = p ∷ s.projects })

-- `CreateProject`.
unfoldable pub create_project : ℕ → ℕ → ℕ → Text → Text → ℤ → ℕ → Op ℕ
unfolding get_client normalize_billing_mode trim_space
create_project id org client name mode rate now = do
  get_client org client
  n ← lift (not_empty name_required (trim_space name))
  m ← lift (normalize_billing_mode mode)
  throw_if (ltb_ℤ rate (pos 0)) negative_rate
  statement (insert_project (new_project id org client n m rate now))

-- `GetProject`.
unfoldable pub get_project : ℕ → ℕ → Op Project
get_project org id =
    query (λ s. find (is_project org id) s.projects) >>= λ row. or_throw row project_not_found

-- The mode of a patch.
abbrev pub mode_column : Option Text → BillingMode → Result BillingMode
mode_column none old = ok old
mode_column (some s) old = normalize_billing_mode s

abbrev pub set_project : Text → BillingMode → ℤ → Bool → ℕ → Project → Project
set_project name mode rate archived now p = record p {
  name = name;
  billing_mode = mode;
  default_rate_minor = rate;
  archived = archived;
  updated_at = now;
}

abbrev pub update_projects : ℕ → ℕ → (Project → Project) → Store → Result (ℕ × Store)
update_projects org id f s =
    constrained true (count_where (is_project org id) s.projects)
      (record s { projects = update_where (is_project org id) f s.projects })

-- `UpdateProject`.
unfoldable pub update_project :
    ℕ → ℕ → Option Text → Option Text → Option ℤ → Option Bool → ℕ → Op (Unit {0})
unfolding get_project normalize_billing_mode trim_space
update_project org id name mode rate archived now = do
  p ← get_project org id
  n ← lift (column (λ s. not_empty name_required (trim_space s)) name p.name)
  m ← lift (mode_column mode p.billing_mode)
  throw_if (given_bad (λ r. ltb_ℤ r (pos 0)) rate) negative_rate
  k ← statement (
      update_projects org id
        (set_project n m (or_else rate p.default_rate_minor) (or_else archived p.archived) now))
  throw_if (k == 0) project_not_found
