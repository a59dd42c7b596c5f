-- ===== src/Catalog/Scoped.antt =====
-- What each statement of a request on clients and projects may change.
use consulting_revenue_platf.Prelude.{
  ◌==◌, ℕ, ◌≡◌, refl, ◌⊎◌, inl, inr, Bool, true, Option, List, [], ◌∷◌, All, Bool-cases,
  update_where, arith,
}
use consulting_revenue_platf.Prelude.Int.{ℤ}
use consulting_revenue_platf.Prelude.Text.{Text}
use consulting_revenue_platf.Store.{Client, Project, Store, Error, Result}
use consulting_revenue_platf.Store.Pool.{Pool, Op, statement, throw_if, ◌>>=◌}
use consulting_revenue_platf.Store.Rely.{
  Guarantees, Changes-constrained, Guarantees-statement, Guarantees-or_throw, Guarantees-lifted,
  Changes, Guarantees-throw_if, Guarantees-bind, Guarantees-query,
}
use consulting_revenue_platf.TimeEntry.Edit.{is_project}
use consulting_revenue_platf.Catalog.Clients.{
  is_client, get_client, create_client, update_client, soft_delete_client,
}
use consulting_revenue_platf.Catalog.Projects.{create_project, get_project, update_project}
use consulting_revenue_platf.Catalog.Requests.{
  CatalogRequest, creating_client, patching_client, deleting_client, creating_project,
  patching_project, book,
}

-- Row for row, the same or changed as `R` allows.
module _ {A : Type 0} (R : A → A → Type 0) where
  abbrev pub Rows : List A → List A → Type 0
  Rows [] [] = Unit
  Rows [] (y ∷ ys) = ⊥
  Rows (x ∷ xs) [] = ⊥
  Rows (x ∷ xs) (y ∷ ys) = ((y ≡ x) ⊎ R x y) × Rows xs ys

  Rows-refl : (xs : List A) → Rows xs xs
  Rows-refl [] = tt
  Rows-refl (x ∷ xs) = (inl refl, Rows-refl xs)

  Rows-update_where :
      (p : A → Bool) (f : A → A)
      → ((x : A) → p x ≡ true → R x (f x))
      → (xs : List A) → Rows xs (update_where p f xs)
  Rows-update_where p f h [] = tt
  Rows-update_where p f h (x ∷ xs) = elim (Bool-cases (p x)) [
    | inl t ↦ rw t (inr (h x t), Rows-update_where p f h xs)
    | inr t ↦ rw t (inl refl, Rows-update_where p f h xs)
  ]

module _ (org : ℕ) where
  -- A client of the organization that is not deleted keeps its id, organization and time of creation.
  pub record ClientChange (x y : Client) : Type 0 where
    pub id : ℕ
    pub own : is_client org id x ≡ true
    pub same_id : y.id ≡ x.id
    pub same_organization : y.organization_id ≡ x.organization_id
    pub same_creation : y.created_at ≡ x.created_at

  -- A project of the organization keeps its id, organization, client and time of creation.
  pub record ProjectChange (x y : Project) : Type 0 where
    pub own : x.organization_id ≡ org
    pub same_id : y.id ≡ x.id
    pub same_organization : y.organization_id ≡ x.organization_id
    pub same_client : y.client_id ≡ x.client_id
    pub same_creation : y.created_at ≡ x.created_at

  abbrev pub Added : List Client → List Client → Type 0
  Added xs ys = (y : Client) × (y.organization_id ≡ org) × (ys ≡ y ∷ xs)

  abbrev pub AddedProject : List Project → List Project → Type 0
  AddedProject xs ys = (y : Project) × (y.organization_id ≡ org) × (ys ≡ y ∷ xs)

  pub record CatalogStep (s s' : Store) : Type 0 where
    pub clients : Rows ClientChange s.clients s'.clients ⊎ Added s.clients s'.clients
    pub projects : Rows ProjectChange s.projects s'.projects ⊎ AddedProject s.projects s'.projects
    pub rest : s' ≡ record s { clients = s'.clients; projects = s'.projects }

  CatalogStep-refl : (s : Store) → CatalogStep s s
  CatalogStep-refl s = record {
    clients = inl (Rows-refl ClientChange s.clients);
    projects = inl (Rows-refl ProjectChange s.projects);
    rest = refl;
  }

  abbrev Steps : {A : Type 0} → Op A → Type 0
  Steps m = Guarantees CatalogStep m

  -- A statement, and the test that it has affected a row.
  counted-Steps :
      (f : Store → Result (ℕ × Store)) (e : Error)
      → ((s : Store) → Changes CatalogStep s (f s))
      → Steps (statement f >>= λ k. throw_if (k == 0) e)
  counted-Steps f e h =
      Guarantees-bind CatalogStep CatalogStep-refl _ _
        (Guarantees-statement CatalogStep CatalogStep-refl f h)
        (λ k. Guarantees-throw_if CatalogStep CatalogStep-refl _ _)

  get-Steps : (id : ℕ) → Steps (get_client org id)
  unfolding get_client
  get-Steps id =
      Guarantees-query CatalogStep CatalogStep-refl _ _
        (λ o. Guarantees-or_throw CatalogStep CatalogStep-refl o _)

  create_client-Steps :
      (id : ℕ) (name email currency : Text) (now : ℕ)
      → Steps (create_client id org name email currency now)
  unfolding create_client
  create_client-Steps id name email currency now =
      Guarantees-lifted CatalogStep CatalogStep-refl _ _ λ n q.
        Guarantees-lifted CatalogStep CatalogStep-refl _ _ λ m q.
          Guarantees-lifted CatalogStep CatalogStep-refl _ _ λ c q.
            Guarantees-statement CatalogStep CatalogStep-refl _ λ s.
              Changes-constrained CatalogStep s _ _ _ (λ t. record {
                clients = inr (_, refl, refl);
                projects = inl (Rows-refl ProjectChange s.projects);
                rest = refl;
              })

  -- An update of one client, and what follows.
  changed-Steps :
      (id : ℕ) (f : Client → Client)
      → ((x : Client) → (f x).id ≡ x.id)
      → ((x : Client) → (f x).organization_id ≡ x.organization_id)
      → ((x : Client) → (f x).created_at ≡ x.created_at)
      → (s : Store)
      → CatalogStep s (record s { clients = update_where (is_client org id) f s.clients })
  changed-Steps id f same own made s = record {
    clients = inl (
        Rows-update_where ClientChange (is_client org id) f
          (λ x t. record {
            id = id;
            own = t;
            same_id = same x;
            same_organization = own x;
            same_creation = made x;
          })
          s.clients);
    projects = inl (Rows-refl ProjectChange s.projects);
    rest = refl;
  }

  update_client-Steps :
      (id : ℕ) (name email currency : Option Text) (now : ℕ)
      → Steps (update_client org id name email currency now)
  unfolding update_client
  update_client-Steps id name email currency now =
      Guarantees-bind CatalogStep CatalogStep-refl _ _ (get-Steps id) λ c.
        Guarantees-lifted CatalogStep CatalogStep-refl _ _ λ n q.
          Guarantees-lifted CatalogStep CatalogStep-refl _ _ λ m q.
            Guarantees-lifted CatalogStep CatalogStep-refl _ _ λ u q. counted-Steps _ _ (λ s.
              Changes-constrained CatalogStep s _ _ _
                (λ t. changed-Steps id _ (λ x. refl) (λ x. refl) (λ x. refl) s))

  soft_delete_client-Steps : (id now : ℕ) → Steps (soft_delete_client org id now)
  unfolding soft_delete_client
  soft_delete_client-Steps id now = counted-Steps _ _ (λ s.
      Changes-constrained CatalogStep s _ _ _
        (λ t. changed-Steps id _ (λ x. refl) (λ x. refl) (λ x. refl) s))

  create_project-Steps :
      (id client : ℕ) (name mode : Text) (rate : ℤ) (now : ℕ)
      → Steps (create_project id org client name mode rate now)
  unfolding create_project
  create_project-Steps id client name mode rate now =
      Guarantees-bind CatalogStep CatalogStep-refl _ _ (get-Steps client) λ c.
        Guarantees-lifted CatalogStep CatalogStep-refl _ _ λ n q.
          Guarantees-lifted CatalogStep CatalogStep-refl _ _ λ m q.
            Guarantees-bind CatalogStep CatalogStep-refl _ _
              (Guarantees-throw_if CatalogStep CatalogStep-refl _ _)
              λ u. Guarantees-statement CatalogStep CatalogStep-refl _ λ s.
                Changes-constrained CatalogStep s _ _ _ (λ t. record {
                  clients = inl (Rows-refl ClientChange s.clients);
                  projects = inr (_, refl, refl);
                  rest = refl;
                })

  update_project-Steps :
      (id : ℕ) (name mode : Option Text) (rate : Option ℤ) (archived : Option Bool) (now : ℕ)
      → Steps (update_project org id name mode rate archived now)
  unfolding update_project get_project
  update_project-Steps id name mode rate archived now =
      Guarantees-bind CatalogStep CatalogStep-refl _ _
        (Guarantees-query CatalogStep CatalogStep-refl _ _
          (λ o. Guarantees-or_throw CatalogStep CatalogStep-refl o _))
        λ p. Guarantees-lifted CatalogStep CatalogStep-refl _ _ λ n q.
          Guarantees-lifted CatalogStep CatalogStep-refl _ _ λ m q.
            Guarantees-bind CatalogStep CatalogStep-refl _ _
              (Guarantees-throw_if CatalogStep CatalogStep-refl _ _)
              λ u. counted-Steps _ _ (λ s. Changes-constrained CatalogStep s _ _ _ (λ t. record {
                clients = inl (Rows-refl ClientChange s.clients);
                projects = inl (
                    Rows-update_where ProjectChange (is_project org id) _
                      (λ x t. record {
                        own = ground (arith, t);
                        same_id = refl;
                        same_organization = refl;
                        same_client = refl;
                        same_creation = refl;
                      })
                      s.projects);
                rest = refl;
              }))

-- The organization of a request.
abbrev pub tenant : CatalogRequest → ℕ
tenant (creating_client id org name email currency now) = org
tenant (patching_client org id name email currency now) = org
tenant (deleting_client org id now) = org
tenant (creating_project id org client name mode rate now) = org
tenant (patching_project org id name mode rate archived now) = org

-- A request on clients or projects, with any calls failed and anything committed by others in between:
-- each statement of it adds a row of its organization, or leaves every row but those of its
-- organization; a client that is deleted at that moment stays as it is, no row is removed or moved to
-- another organization, no project to another client, and no other table is touched.
pub book-writes :
    (r : CatalogRequest) (p : Pool)
    → p.writes ≡ []
    → All (λ w. CatalogStep (tenant r) w.0 w.1) (book r p).writes
unfolding book
book-writes (creating_client id org name email currency now) p h =
    (create_client-Steps org id name email currency now).apply p (rw h tt)
book-writes (patching_client org id name email currency now) p h =
    (update_client-Steps org id name email currency now).apply p (rw h tt)
book-writes (deleting_client org id now) p h =
    (soft_delete_client-Steps org id now).apply p (rw h tt)
book-writes (creating_project id org client name mode rate now) p h =
    (create_project-Steps org id client name mode rate now).apply p (rw h tt)
book-writes (patching_project org id name mode rate archived now) p h =
    (update_project-Steps org id name mode rate archived now).apply p (rw h tt)
