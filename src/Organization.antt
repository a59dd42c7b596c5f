-- ===== src/Organization.antt =====
-- Organizations: `DeactivateOrganization` of internal/repo/organization.go.
use consulting_revenue_platf.Prelude.{
  ℕ, Bool, true, false, ◌&&◌, Option, none, some, List, ◌==◌, if◌then◌else◌, find, update_where,
}
use consulting_revenue_platf.Store.{
  MembershipStatus, Membership, Organization, Store, Result, organization_not_found, Tx, ◌>>=◌,
  ◌>>◌, query, exec, or_throw, pure, Db, run_in_tx,
}
use consulting_revenue_platf.Auth.Tenant.{is_active}
pub mod Closed

abbrev pub is_organization : ℕ → Organization → Bool
is_organization id o = o.id == id

abbrev pub is_deactivated : Organization → Bool
is_deactivated o = elim o.deactivated_at [ none ↦ false | some t ↦ true ]

abbrev pub close : ℕ → ℕ → Store → Store
close id now s = record s {
  organizations =
      update_where (is_organization id) (λ o. record o { deactivated_at = some now })
        s.organizations;
}

-- `WHERE organization_id = $1 AND status = 'active'`.
abbrev pub is_active_in : ℕ → Membership → Bool
is_active_in id m = m.organization_id == id && is_active m.status

abbrev pub suspend : ℕ → Store → Store
suspend id s = record s {
  memberships =
      update_where (is_active_in id) (λ m. record m { status = MembershipStatus.suspended })
        s.memberships;
}

-- The transaction: an organization that is deactivated already is left as it is.
unfoldable pub deactivate_tx : ℕ → ℕ → Tx (Unit {0})
deactivate_tx id now = do
  row ← query (λ s. find (is_organization id) s.organizations)
  o ← or_throw row organization_not_found
  if is_deactivated o then pure tt else exec (close id now) >> exec (suspend id)

-- `DeactivateOrganization`.
unfoldable pub deactivate_organization : ℕ → ℕ → Db → Result (Unit {0}) × Db
unfolding deactivate_tx
deactivate_organization id now = run_in_tx (deactivate_tx id now)
