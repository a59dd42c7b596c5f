-- ===== src/Scenarios/Booking.antt =====
-- Runs on clients and projects.
use consulting_revenue_platf.Prelude.{
  ◌≡◌, refl, inl, ap, some, none, List, [], ◌∷◌, All, true, arith, ℕ,
}
use consulting_revenue_platf.Prelude.Int.{pos}
use consulting_revenue_platf.Prelude.Text.{Text, codes, trim_space, to_lower, to_upper}
use consulting_revenue_platf.Store.{BillingMode, Client, Project, Store}
use consulting_revenue_platf.Store.Pool.{Pool, pool_steps}
use consulting_revenue_platf.Money.Currency.{usd, jpy, normalize_currency}
use consulting_revenue_platf.Catalog.Clients.{
  normalize_billing_email, create_client, get_client, update_client, soft_delete_client,
}
use consulting_revenue_platf.Catalog.Projects.{
  normalize_billing_mode, create_project, get_project, update_project,
}
use consulting_revenue_platf.Catalog.Requests.{
  CatalogRequest, creating_client, patching_client, deleting_client, creating_project,
  patching_project, book, book_all, book_all-IsCatalog,
}
use consulting_revenue_platf.Catalog.Rows.{IsCatalog}
use consulting_revenue_platf.Catalog.Scoped.{CatalogStep, book-writes}
use consulting_revenue_platf.Prelude.Search.{has_prefix}
use consulting_revenue_platf.Store.{Role}
use consulting_revenue_platf.Membership.Roles.{role_allows, client_read}
use consulting_revenue_platf.Auth.Reply.{success, forbidden, reply, calling}
use consulting_revenue_platf.Auth.Handlers.{bearer_token}
use consulting_revenue_platf.Auth.Tenant.{
  Principal, get_active_role, require_tenant_auth, require_role, route,
}
use consulting_revenue_platf.Auth.Admitted.{Admitted}
use consulting_revenue_platf.Catalog.Clients.{list_clients}
use consulting_revenue_platf.Catalog.Routes.{handle_list_clients}
use consulting_revenue_platf.Catalog.Listed.{ClientVisible, list_clients_route-IsScoped}
use consulting_revenue_platf.Scenarios.{empty_store}
use consulting_revenue_platf.Scenarios.Sessions.{sample_crypto, sample_member}

abbrev first_client : Client
first_client = record {
  id = 70;
  organization_id = 1;
  name = codes "Acme";
  billing_email = codes "pay@acme.io";
  currency_preference = usd;
  deleted_at = none;
  created_at = 0;
  updated_at = 0;
}

abbrev catalog_store : Store
catalog_store = record empty_store {
  organizations = record { id = 1; name = codes "Us"; deactivated_at = none } ∷ [];
  clients = first_client ∷ [];
}

abbrev catalog_pool : Pool
catalog_pool = record { store = catalog_store; faults = []; others = []; writes = [] }

catalog_steps : Unit {0}
unfolding pool_steps book book_all create_client get_client update_client soft_delete_client
    create_project get_project update_project normalize_billing_email normalize_billing_mode
    normalize_currency trim_space to_lower to_upper
catalog_steps = tt

-- A client is added, a project of the first client is opened and archived, and the first client is
-- deleted: a project of it is then refused, and one of the other is not.
abbrev bookings : List CatalogRequest
bookings =
    creating_client 71 1 (codes " Beta ") (codes "A@B.C ") (codes "jpy") 1
    ∷ creating_project 7 1 70 (codes "Site") (codes " Hourly") (pos 100) 2
    ∷ patching_project 1 7 none none none (some true) 3
    ∷ deleting_client 1 70 4
    ∷ creating_project 8 1 70 (codes "App") (codes "fixed") (pos 0) 5
    ∷ patching_client 1 71 (some (codes "Gamma")) none none 6
    ∷ []

abbrev second_client : Client
second_client = record first_client {
  id = 71;
  name = codes "Gamma";
  billing_email = codes "a@b.c";
  currency_preference = jpy;
  created_at = 1;
  updated_at = 6;
}

abbrev site : Project
site = record {
  id = 7;
  organization_id = 1;
  client_id = 70;
  name = codes "Site";
  billing_mode = BillingMode.hourly;
  default_rate_minor = pos 100;
  archived = true;
  created_at = 2;
  updated_at = 3;
}

books : (book_all bookings catalog_pool).store ≡ record catalog_store {
  clients = second_client ∷ record first_client { deleted_at = some 4; updated_at = 4 } ∷ [];
  projects = site ∷ [];
}
unfolding catalog_steps
books = refl

abbrev first : Text → ℕ
first [] = 0
first (ch ∷ s) = ch

catalog_store-IsCatalog : IsCatalog catalog_store
catalog_store-IsCatalog = record {
  clients = (
    record {
      named = λ h. omega (arith, ap first h);
      addressed = λ h. omega (arith, ap first h);
      currency = inl refl;
    },
    tt,
  );
  projects = tt;
  owned = tt;
}

book_all-IsCatalog_example : IsCatalog (book_all bookings catalog_pool).store
book_all-IsCatalog_example = book_all-IsCatalog bookings catalog_pool tt catalog_store-IsCatalog

book-writes_example :
    All
      (λ w. CatalogStep 1 w.0 w.1)
      (book (patching_client 1 70 none (some (codes "X@y.z")) none 9) catalog_pool).writes
book-writes_example =
    book-writes (patching_client 1 70 none (some (codes "X@y.z")) none 9) catalog_pool refl

-- The listing: a client of another organization and one that is deleted are not shown.
abbrev listed_pool : Pool
listed_pool = record catalog_pool {
  store = record catalog_store {
    clients =
        second_client
        ∷ record first_client { deleted_at = some 4 }
        ∷ record first_client { id = 72; organization_id = 2 }
        ∷ first_client
        ∷ [];
    memberships = sample_member Role.contractor ∷ [];
  };
}

list_steps : Unit {0}
unfolding pool_steps reply calling list_clients handle_list_clients trim_space has_prefix
    bearer_token get_active_role require_tenant_auth require_role route role_allows
list_steps = tt

abbrev key : Text
key = codes "key"

abbrev listed_after : Pool
listed_after =
    (route sample_crypto key 3 client_read (λ u. handle_list_clients u (codes "0"))
      (codes "Bearer 58") (codes "1") listed_pool).1

lists_clients :
    route sample_crypto key 3 client_read
      (λ u. handle_list_clients u (codes "0"))
      (codes "Bearer 58")
      (codes "1")
      listed_pool
    ≡ (success 200 (first_client ∷ second_client ∷ []), listed_after)
unfolding list_steps
lists_clients = refl

-- A contractor may not ask for the deleted ones.
hides_deleted :
    (route sample_crypto key 3 client_read
      (λ u. handle_list_clients u (codes " true"))
      (codes "Bearer 58")
      (codes "1")
      listed_pool).0
    ≡ forbidden
unfolding list_steps
hides_deleted = refl

list_clients_route-IsScoped_example :
    (u : Principal) × Admitted sample_crypto 3
      (codes "Bearer 58")
      (codes "1")
      client_read
      listed_pool.store
      u
    × (listed_after.store ≡ listed_pool.store)
    × All (ClientVisible u) (first_client ∷ second_client ∷ [])
list_clients_route-IsScoped_example =
    list_clients_route-IsScoped sample_crypto key 3 200 (codes "Bearer 58") (codes "1") (codes "0")
      listed_pool listed_after (first_client ∷ second_client ∷ []) refl lists_clients
