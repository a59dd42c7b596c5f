-- ===== src/Catalog/Kept.antt =====
-- Each operation on clients and projects keeps the invariant of their tables.
use consulting_revenue_platf.Prelude.{
  ℕ, ◌≡◌, ◌≢◌, refl, Bool, false, Option, none, some, [], ◌∷◌, All-find, All-map, All-update_where,
  arith,
}
use consulting_revenue_platf.Prelude.Int.{ℤ, pos, negsuc, ltb_ℤ}
use consulting_revenue_platf.Prelude.Text.{Text, trim_space}
use consulting_revenue_platf.Store.{Client, Project, name_required, billing_email_required}
use consulting_revenue_platf.Store.Pool.{Op}
use consulting_revenue_platf.Store.Rely.{
  Keeps, Sound-constrained, Keeps-statement, Keeps-or_throw, Keeps-lift, Keeps-throw_if, Keeps-bind,
  Keeps-query, Keeps-weaken,
}
use consulting_revenue_platf.Money.Currency.{
  IsCurrency, normalize_currency, normalize_currency-IsCurrency,
}
use consulting_revenue_platf.TimeEntry.Edit.{is_project, or_else, given_bad}
use consulting_revenue_platf.Catalog.Clients.{
  normalize_billing_email, not_empty, is_client, get_client, currency_or_usd, new_client,
  insert_client, create_client, set_client, update_clients, update_client, delete_client,
  soft_delete_client,
}
use consulting_revenue_platf.Catalog.Projects.{
  has_id, new_project, insert_project, create_project, get_project, set_project, update_projects,
  update_project,
}
use consulting_revenue_platf.Catalog.Rows.{
  HasClientData, HasProjectData, HasOwner, IsCatalog, not_empty-ok, column-ok, found_more,
  changed_clients,
}

abbrev pub Kept : {A : Type 0} → Op A → (A → Type 0) → Type 0
Kept m Q = Keeps IsCatalog m Q

module _ (org : ℕ) where
  get_client-Kept : (id : ℕ) → Kept (get_client org id) HasClientData
  unfolding get_client
  get_client-Kept id =
      Keeps-query IsCatalog (λ row. (c : Client) → row ≡ some c → HasClientData c) _ _
        (λ s i c. All-find HasClientData (is_client org id) s.clients c i.clients)
        λ row q. Keeps-or_throw IsCatalog row _ q

  pub create_client-Kept :
      (id : ℕ) (name email currency : Text) (now : ℕ)
      → Kept (create_client id org name email currency now) (λ i. i ≡ id)
  unfolding create_client
  create_client-Kept id name email currency now =
      Keeps-bind IsCatalog (λ n. n ≢ []) _ _
        (Keeps-lift IsCatalog _ (λ n h. not_empty-ok name_required (trim_space name) n h))
        λ n named.
          Keeps-bind IsCatalog (λ m. m ≢ []) _ _
            (Keeps-lift IsCatalog _
              (λ m h. not_empty-ok billing_email_required (normalize_billing_email email) m h))
            λ m addressed.
              Keeps-bind IsCatalog IsCurrency _ _
                (Keeps-lift IsCatalog _ (λ c h.
                  normalize_currency-IsCurrency (currency_or_usd (trim_space currency)) c h))
                λ c known.
                  Keeps-statement IsCatalog (insert_client (new_client id org n m c now)) λ s i.
                    Sound-constrained IsCatalog _ _ _ _
                      (λ t. record {
                        clients = (
                          record { named = named; addressed = addressed; currency = known },
                          i.clients,
                        );
                        projects = i.projects;
                        owned =
                            All-map (HasOwner s.clients)
                              (HasOwner (new_client id org n m c now ∷ s.clients)) s.projects
                              (λ p h.
                                found_more (has_id p.client_id) (new_client id org n m c now)
                                  s.clients h)
                              i.owned;
                      })
                      refl

  pub update_client-Kept :
      (id : ℕ) (name email currency : Option Text) (now : ℕ)
      → Kept (update_client org id name email currency now) (λ u. Unit)
  unfolding update_client
  update_client-Kept id name email currency now =
      Keeps-bind IsCatalog HasClientData _ _ (get_client-Kept id) λ c d.
        Keeps-bind IsCatalog (λ n. n ≢ []) _ _
          (Keeps-lift IsCatalog _ (λ n h.
            column-ok (λ x. x ≢ []) (λ s. not_empty name_required (trim_space s)) name c.name n
              (λ s t. not_empty-ok name_required (trim_space s) t) d.named h))
          λ n named.
            Keeps-bind IsCatalog (λ m. m ≢ []) _ _
              (Keeps-lift IsCatalog _ (λ m h.
                column-ok (λ x. x ≢ [])
                  (λ s. not_empty billing_email_required (normalize_billing_email s)) email
                  c.billing_email m
                  (λ s t. not_empty-ok billing_email_required (normalize_billing_email s) t)
                  d.addressed h))
              λ m addressed.
                Keeps-bind IsCatalog IsCurrency _ _
                  (Keeps-lift IsCatalog _ (λ cur h.
                    column-ok IsCurrency normalize_currency currency c.currency_preference cur
                      normalize_currency-IsCurrency d.currency h))
                  λ cur known.
                    Keeps-bind IsCatalog (λ k. Unit) _ _
                      (Keeps-statement IsCatalog (update_clients org id (set_client n m cur now))
                        λ s i.
                          Sound-constrained IsCatalog _ _ _ _
                            (λ t.
                              changed_clients (is_client org id) (set_client n m cur now)
                                (λ x. refl) s
                                (λ x t h. record {
                                  named = named;
                                  addressed = addressed;
                                  currency = known;
                                })
                                i)
                            tt)
                      λ k q. Keeps-weaken IsCatalog _ (λ u h. tt) (Keeps-throw_if IsCatalog _ _)

  pub soft_delete_client-Kept : (id now : ℕ) → Kept (soft_delete_client org id now) (λ u. Unit)
  unfolding soft_delete_client
  soft_delete_client-Kept id now =
      Keeps-bind IsCatalog (λ k. Unit) _ _
        (Keeps-statement IsCatalog (update_clients org id (delete_client now)) λ s i.
          Sound-constrained IsCatalog _ _ _ _
            (λ t.
              changed_clients (is_client org id) (delete_client now) (λ x. refl) s
                (λ x t h. record {
                  named = h.named;
                  addressed = h.addressed;
                  currency = h.currency;
                })
                i)
            tt)
        λ k q. Keeps-weaken IsCatalog _ (λ u h. tt) (Keeps-throw_if IsCatalog _ _)

  not_negative : (r : ℤ) → ltb_ℤ r (pos 0) ≡ false → (n : ℕ) × (r ≡ pos n)
  not_negative (pos n) h = (n, refl)
  not_negative (negsuc n) h = absurd (ground arith)

  pub create_project-Kept :
      (id client : ℕ) (name mode : Text) (rate : ℤ) (now : ℕ)
      → Kept (create_project id org client name mode rate now) (λ i. i ≡ id)
  unfolding create_project
  create_project-Kept id client name mode rate now =
      Keeps-bind IsCatalog HasClientData _ _ (get_client-Kept client) λ c d.
        Keeps-bind IsCatalog (λ n. n ≢ []) _ _
          (Keeps-lift IsCatalog _ (λ n h. not_empty-ok name_required (trim_space name) n h))
          λ n named.
            Keeps-bind IsCatalog (λ m. Unit) _ _ (Keeps-lift IsCatalog _ (λ m h. tt))
              λ m q.
                Keeps-bind IsCatalog _ _ _ (Keeps-throw_if IsCatalog (ltb_ℤ rate (pos 0)) _) λ u h.
                  Keeps-statement IsCatalog
                    (insert_project (new_project id org client n m rate now))
                    λ s i.
                      Sound-constrained IsCatalog _ _ _ _
                        (λ t.
                          let (r, e) = not_negative rate h in
                          record {
                            clients = i.clients;
                            projects =
                                (record { named = named; rate = r; rate_eq = e }, i.projects);
                            owned = (ground (arith, t), i.owned);
                          })
                        refl

  patched_rate :
      (o : Option ℤ) (old : ℤ)
      → given_bad (λ r. ltb_ℤ r (pos 0)) o ≡ false
      → (n : ℕ) × (old ≡ pos n)
      → (n : ℕ) × (or_else o old ≡ pos n)
  patched_rate none old h q = q
  patched_rate (some r) old h q = not_negative r h

  pub update_project-Kept :
      (id : ℕ) (name mode : Option Text) (rate : Option ℤ) (archived : Option Bool) (now : ℕ)
      → Kept (update_project org id name mode rate archived now) (λ u. Unit)
  unfolding update_project get_project
  update_project-Kept id name mode rate archived now =
      Keeps-bind IsCatalog HasProjectData _ _
        (Keeps-query IsCatalog (λ row. (p : Project) → row ≡ some p → HasProjectData p) _ _
          (λ s i p. All-find HasProjectData (is_project org id) s.projects p i.projects)
          λ row q. Keeps-or_throw IsCatalog row _ q)
        λ p d.
          Keeps-bind IsCatalog (λ n. n ≢ []) _ _
            (Keeps-lift IsCatalog _ (λ n h.
              column-ok (λ x. x ≢ []) (λ s. not_empty name_required (trim_space s)) name p.name n
                (λ s t. not_empty-ok name_required (trim_space s) t) d.named h))
            λ n named.
              Keeps-bind IsCatalog (λ m. Unit) _ _ (Keeps-lift IsCatalog _ (λ m h. tt))
                λ m q.
                  Keeps-bind IsCatalog _ _ _
                    (Keeps-throw_if IsCatalog (given_bad (λ r. ltb_ℤ r (pos 0)) rate) _)
                    λ u h.
                      let (r, e) = patched_rate rate p.default_rate_minor h (d.rate, d.rate_eq) in
                      Keeps-bind IsCatalog (λ k. Unit) _ _
                        (Keeps-statement IsCatalog
                          (update_projects org id (
                            set_project n m (or_else rate p.default_rate_minor)
                              (or_else archived p.archived) now))
                          λ s i.
                            Sound-constrained IsCatalog _ _ _ _
                              (λ t. record {
                                clients = i.clients;
                                projects =
                                    All-update_where HasProjectData HasProjectData
                                      (is_project org id)
                                      (set_project n m (or_else rate p.default_rate_minor)
                                        (or_else archived p.archived) now)
                                      s.projects
                                      (λ x t h. record { named = named; rate = r; rate_eq = e })
                                      (λ x t h. h) i.projects;
                                owned =
                                    All-update_where (HasOwner s.clients) (HasOwner s.clients)
                                      (is_project org id)
                                      (set_project n m (or_else rate p.default_rate_minor)
                                        (or_else archived p.archived) now)
                                      s.projects (λ x t h. h) (λ x t h. h) i.owned;
                              })
                              tt)
                        λ k q. Keeps-weaken IsCatalog _ (λ u h. tt) (Keeps-throw_if IsCatalog _ _)
