-- ===== src/Scenarios/Members.antt =====
-- Runs on memberships: an organization with two owners.
use consulting_revenue_platf.Prelude.{ℕ, ◌≡◌, refl, true, List, [], ◌∷◌, arith}
use consulting_revenue_platf.Prelude.Text.{codes, trim_space, to_lower}
use consulting_revenue_platf.Store.{
  Role, MembershipStatus, Membership, Store, Db, Outcome, tx_steps,
}
use consulting_revenue_platf.Membership.Roles.{
  role_text, normalize_role, role_allows, invoice_write, accountant_text,
}
use consulting_revenue_platf.Membership.Policy.{role_allows_monotone, role_allows_known}
use consulting_revenue_platf.Membership.Store.{
  get_membership, guard_last_owner, update_role_tx, update_membership_role, delete_tx,
  delete_membership,
}
use consulting_revenue_platf.Membership.Requests.{
  IsOwned, Changed, Protected, removes_owner, without, delete_membership-Outcome, MembershipRequest,
  changing, removing, serve_all, serve, serve_all-IsOwned,
}
use consulting_revenue_platf.Scenarios.{empty_store}

abbrev owner_row : ℕ → Membership
owner_row id = record {
  id = id;
  user_id = id;
  organization_id = 1;
  role = Role.owner;
  status = MembershipStatus.active;
}

abbrev members_store : Store
members_store = record empty_store { memberships = owner_row 3 ∷ owner_row 4 ∷ [] }

abbrev members_db : Db
members_db = record { store = members_store; faults = [] }

members_store-IsOwned : IsOwned 1 members_store
members_store-IsOwned = record { distinct = (refl, (refl, tt)); has_owner = omega arith }

-- Demoting one owner, and removing the other, which is refused.
abbrev both_owners : List MembershipRequest
both_owners = changing 1 3 (codes " Accountant ") ∷ removing 1 4 ∷ []

last_owner_stays :
    (serve_all both_owners members_db).store.memberships
    ≡ record (owner_row 3) { role = Role.accountant } ∷ owner_row 4 ∷ []
unfolding serve_all serve update_membership_role delete_membership normalize_role update_role_tx
    delete_tx get_membership guard_last_owner trim_space to_lower tx_steps
last_owner_stays = refl

serve_all-IsOwned_example : IsOwned 1 (serve_all both_owners members_db).store
serve_all-IsOwned_example = serve_all-IsOwned 1 both_owners members_db members_store-IsOwned

delete_membership-Outcome_example :
    Outcome
      (λ u s'. Changed (removes_owner 1 3) (without 1 3) 1 3 members_store s')
      (λ e b s'. Protected (removes_owner 1 3) 1 3 members_store e)
      members_db
      (delete_membership 1 3 members_db)
delete_membership-Outcome_example = delete_membership-Outcome 1 3 members_db

accountant_invoices : role_allows accountant_text invoice_write ≡ true
unfolding role_allows
accountant_invoices = refl

role_allows_monotone_example : role_allows (role_text Role.owner) invoice_write ≡ true
role_allows_monotone_example =
    role_allows_monotone Role.accountant Role.owner invoice_write (omega arith) accountant_invoices

role_allows_known_example : (r : Role) × (accountant_text ≡ role_text r)
role_allows_known_example = role_allows_known accountant_text invoice_write accountant_invoices
