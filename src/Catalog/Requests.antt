-- ===== src/Catalog/Requests.antt =====
-- Requests on clients and projects, and what the tables of them satisfy after any of these.
use consulting_revenue_platf.Prelude.{ℕ, Bool, Option, List, [], ◌∷◌}
use consulting_revenue_platf.Prelude.Int.{ℤ}
use consulting_revenue_platf.Prelude.Text.{Text}
use consulting_revenue_platf.Store.Pool.{Pool}
use consulting_revenue_platf.Store.Rely.{Relied}
use consulting_revenue_platf.Catalog.Clients.{create_client, update_client, soft_delete_client}
use consulting_revenue_platf.Catalog.Projects.{create_project, update_project}
use consulting_revenue_platf.Catalog.Rows.{IsCatalog}
use consulting_revenue_platf.Catalog.Kept.{
  create_client-Kept, update_client-Kept, soft_delete_client-Kept, create_project-Kept,
  update_project-Kept,
}

-- A request of an organization.
pub data CatalogRequest : Type 0 where
  creating_client : ℕ → ℕ → Text → Text → Text → ℕ → CatalogRequest
  patching_client : ℕ → ℕ → Option Text → Option Text → Option Text → ℕ → CatalogRequest
  deleting_client : ℕ → ℕ → ℕ → CatalogRequest
  creating_project : ℕ → ℕ → ℕ → Text → Text → ℤ → ℕ → CatalogRequest
  patching_project : ℕ → ℕ → Option Text → Option Text → Option ℤ → Option Bool → ℕ → CatalogRequest

unfoldable pub book : CatalogRequest → Pool → Pool
book (creating_client id org name email currency now) p =
    (create_client id org name email currency now p).1
book (patching_client org id name email currency now) p =
    (update_client org id name email currency now p).1
book (deleting_client org id now) p = (soft_delete_client org id now p).1
book (creating_project id org client name mode rate now) p =
    (create_project id org client name mode rate now p).1
book (patching_project org id name mode rate archived now) p =
    (update_project org id name mode rate archived now p).1

unfoldable pub book_all : List CatalogRequest → Pool → Pool
unfolding book
book_all [] p = p
book_all (r ∷ rs) p = book_all rs (book r p)

book-IsCatalog :
    (r : CatalogRequest) (p : Pool)
    → Relied IsCatalog p.others
    → IsCatalog p.store
    → IsCatalog (book r p).store × Relied IsCatalog (book r p).others
unfolding book
book-IsCatalog (creating_client id org name email currency now) p o i =
    let k = (create_client-Kept org id name email currency now).apply p o i in (k.0, k.1)
book-IsCatalog (patching_client org id name email currency now) p o i =
    let k = (update_client-Kept org id name email currency now).apply p o i in (k.0, k.1)
book-IsCatalog (deleting_client org id now) p o i =
    let k = (soft_delete_client-Kept org id now).apply p o i in (k.0, k.1)
book-IsCatalog (creating_project id org client name mode rate now) p o i =
    let k = (create_project-Kept org id client name mode rate now).apply p o i in (k.0, k.1)
book-IsCatalog (patching_project org id name mode rate archived now) p o i =
    let k = (update_project-Kept org id name mode rate archived now).apply p o i in (k.0, k.1)

-- The clients and projects after any requests to create, patch and delete them, served one statement
-- at a time with any of the driver's calls failed and anything committed in between that keeps the
-- invariant: every client has a name, an address and a supported currency, every project has a name,
-- a rate that is not negative and a client.
pub book_all-IsCatalog :
    (rs : List CatalogRequest) (p : Pool)
    → Relied IsCatalog p.others
    → IsCatalog p.store
    → IsCatalog (book_all rs p).store
unfolding book_all
book_all-IsCatalog [] p o i = i
book_all-IsCatalog (r ∷ rs) p o i =
    let (k, o') = book-IsCatalog r p o i in book_all-IsCatalog rs (book r p) o' k
