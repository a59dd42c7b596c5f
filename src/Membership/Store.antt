-- ===== src/Membership/Store.antt =====
-- The rows of memberships (internal/repo/memberships.go).
use consulting_revenue_platf.Prelude.{
  ℕ, ◌+◌, Bool, true, false, ◌&&◌, ◌||◌, not, Option, none, some, List, [], ◌∷◌, ◌==◌, leb,
  if◌then◌else◌, find, update_where, delete_where,
}
use consulting_revenue_platf.Prelude.Text.{Text}
use consulting_revenue_platf.Store.{
  Role, MembershipStatus, Membership, Store, sql_failed, membership_not_found, duplicate_membership,
  last_owner_protected, Result, ok, err, Tx, ◌>>=◌, ◌>>◌, stmt, query, exec, or_throw, pure,
  throw_if, Db, run_in_tx, auto,
}
use consulting_revenue_platf.Membership.Roles.{normalize_role}

abbrev pub is_owner_role : Role → Bool
is_owner_role Role.owner = true
is_owner_role Role.accountant = false
is_owner_role Role.contractor = false

abbrev pub is_active : MembershipStatus → Bool
is_active MembershipStatus.active = true
is_active MembershipStatus.invited = false
is_active MembershipStatus.suspended = false

-- `WHERE id = $1 AND organization_id = $2`.
abbrev pub is_membership : ℕ → ℕ → Membership → Bool
is_membership org id m = m.id == id && m.organization_id == org

abbrev pub is_active_owner : ℕ → Membership → Bool
is_active_owner org m = m.organization_id == org && is_owner_role m.role && is_active m.status

-- `COUNT(*) ... WHERE organization_id = $1 AND role = 'owner' AND status = 'active'`.
abbrev pub owners : ℕ → List Membership → ℕ
owners org [] = 0
owners org (m ∷ ms) = (if is_active_owner org m then 1 else 0) + owners org ms

-- `getMembershipInOrganizationTx`.
unfoldable pub get_membership : ℕ → ℕ → Tx Membership
get_membership org id = query (λ s. find (is_membership org id) s.memberships) >>= λ row.
    or_throw row membership_not_found

-- `countActiveOwnersInOrganizationTx`, and the guard on it.
unfoldable pub guard_last_owner : ℕ → Tx (Unit {0})
guard_last_owner org = do
  n ← query (λ s. owners org s.memberships)
  throw_if (leb n 1) last_owner_protected

abbrev pub user_taken : ℕ → ℕ → List Membership → Bool
user_taken org user [] = false
user_taken org user (m ∷ ms) =
    m.user_id == user && m.organization_id == org || user_taken org user ms

abbrev pub id_taken : ℕ → List Membership → Bool
id_taken id [] = false
id_taken id (m ∷ ms) = m.id == id || id_taken id ms

-- The `INSERT`, with the id that the database gives. `UNIQUE (user_id, organization_id)` is the
-- violation that the code names; a second row of one id meets the primary key.
abbrev pub insert_membership : Membership → Store → Result (ℕ × Store)
insert_membership m s =
    if user_taken m.organization_id m.user_id s.memberships
    then err duplicate_membership
    else if id_taken m.id s.memberships
    then err sql_failed
    else ok (m.id, record s { memberships = m ∷ s.memberships })

abbrev pub active_membership : ℕ → ℕ → ℕ → Role → Membership
active_membership id org user role = record {
  id = id;
  user_id = user;
  organization_id = org;
  role = role;
  status = MembershipStatus.active;
}

-- `CreateActiveMembership`.
unfoldable pub create_active_membership : ℕ → ℕ → ℕ → Text → Db → Result ℕ × Db
create_active_membership new_id org user role d = elim (normalize_role role) [
  | err e ↦ (err e, d)
  | ok r ↦ auto (stmt (insert_membership (active_membership new_id org user r))) d
]

abbrev pub set_role : Role → Membership → Membership
set_role role m = record m { role = role }

abbrev pub update_role : ℕ → ℕ → Role → Store → Store
update_role org id role s = record s {
  memberships = update_where (is_membership org id) (set_role role) s.memberships;
}

-- The transaction of `UpdateMembershipRole`.
unfoldable pub update_role_tx : ℕ → ℕ → Role → Tx (Unit {0})
update_role_tx org id role = do
  rec ← get_membership org id
  if is_owner_role rec.role && not (is_owner_role role) then guard_last_owner org else pure tt
  exec (update_role org id role)

-- `UpdateMembershipRole`.
unfoldable pub update_membership_role : ℕ → ℕ → Text → Db → Result (Unit {0}) × Db
update_membership_role org id role d = elim (normalize_role role) [
  | err e ↦ (err e, d)
  | ok r ↦ run_in_tx (update_role_tx org id r) d
]

abbrev pub some_membership : Option Membership → Bool
some_membership none = false
some_membership (some m) = true

-- `DELETE`: whether a row was affected.
abbrev pub delete_row : ℕ → ℕ → Store → Result (Bool × Store)
delete_row org id s = ok (
  some_membership (find (is_membership org id) s.memberships),
  record s { memberships = delete_where (is_membership org id) s.memberships },
)

-- The transaction of `DeleteMembership`.
unfoldable pub delete_tx : ℕ → ℕ → Tx (Unit {0})
delete_tx org id = do
  rec ← get_membership org id
  if is_owner_role rec.role && is_active rec.status then guard_last_owner org else pure tt
  affected ← stmt (delete_row org id)
  throw_if (not affected) membership_not_found

-- `DeleteMembership`.
unfoldable pub delete_membership : ℕ → ℕ → Db → Result (Unit {0}) × Db
delete_membership org id = run_in_tx (delete_tx org id)
