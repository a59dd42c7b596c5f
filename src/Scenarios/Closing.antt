-- ===== src/Scenarios/Closing.antt =====
-- A run of an organization that is deactivated.
use consulting_revenue_platf.Prelude.{◌≡◌, refl, none, [], ◌∷◌}
use consulting_revenue_platf.Prelude.Text.{codes}
use consulting_revenue_platf.Store.{Role, Organization, ok, Db, tx_steps}
use consulting_revenue_platf.Store.Pool.{Pool}
use consulting_revenue_platf.Membership.Roles.{client_read}
use consulting_revenue_platf.Auth.Success.{IsRefusal}
use consulting_revenue_platf.Auth.Tenant.{route}
use consulting_revenue_platf.Catalog.Routes.{handle_list_clients}
use consulting_revenue_platf.Organization.{deactivate_tx, deactivate_organization}
use consulting_revenue_platf.Organization.Closed.{deactivate_organization-IsRefusal}
use consulting_revenue_platf.Scenarios.{empty_store}
use consulting_revenue_platf.Scenarios.Sessions.{sample_crypto, sample_member}

abbrev us : Organization
us = record { id = 1; name = codes "Us"; deactivated_at = none }

abbrev open_db : Db
open_db = record {
  store = record empty_store {
    organizations = us ∷ [];
    memberships = sample_member Role.owner ∷ [];
  };
  faults = [];
}

deactivates : (deactivate_organization 1 9 open_db).0 ≡ ok tt
unfolding deactivate_organization deactivate_tx tx_steps
deactivates = refl

abbrev closed_pool : Pool
closed_pool = record {
  store = (deactivate_organization 1 9 open_db).1.store;
  faults = [];
  others = [];
  writes = [];
}

deactivate_organization-IsRefusal_example :
    IsRefusal
      (route sample_crypto
        (codes "key")
        10
        client_read
        (λ u. handle_list_clients u [])
        (codes "Bearer 58")
        (codes "1")
        closed_pool).0
deactivate_organization-IsRefusal_example =
    deactivate_organization-IsRefusal 1 9 sample_crypto (codes "key") (codes "Bearer 58")
      (codes "1") client_read 10 (λ u. handle_list_clients u []) open_db us closed_pool refl refl
      refl deactivates refl refl
