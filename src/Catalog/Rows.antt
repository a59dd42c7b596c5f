-- ===== src/Catalog/Rows.antt =====
-- The invariant of the tables of clients and projects, and what an update of clients keeps of it.
use consulting_revenue_platf.Prelude.{
  ℕ, ◌≡◌, ◌≢◌, refl, ap, ◌∙◌, Bool, true, false, Option, none, some, List, [], ◌∷◌, All, All-map,
  All-update_where, Bool-cases, inl, inr, update_where, find, ◌==◌, arith,
}
use mathlib.Core.Path.{subst}
use consulting_revenue_platf.Prelude.Int.{pos}
use consulting_revenue_platf.Prelude.Text.{Text}
use consulting_revenue_platf.Store.{Client, Project, Store, Error, Result, ok}
use consulting_revenue_platf.Money.Currency.{IsCurrency}
use consulting_revenue_platf.Catalog.Clients.{not_empty, is_some, column}
use consulting_revenue_platf.Catalog.Projects.{has_id}

-- A client has a name, an address for invoices and a currency that is supported.
pub record HasClientData (c : Client) : Type 0 where
  pub named : c.name ≢ []
  pub addressed : c.billing_email ≢ []
  pub currency : IsCurrency c.currency_preference

-- A project has a name, and its rate is not negative.
pub record HasProjectData (p : Project) : Type 0 where
  pub named : p.name ≢ []
  pub rate : ℕ
  pub rate_eq : p.default_rate_minor ≡ pos rate

-- The client of a project is there, deleted or not.
abbrev pub HasOwner : List Client → Project → Type 0
HasOwner cs p = is_some (find (has_id p.client_id) cs) ≡ true

pub record IsCatalog (s : Store) : Type 0 where
  pub clients : All HasClientData s.clients
  pub projects : All HasProjectData s.projects
  pub owned : All (HasOwner s.clients) s.projects

pub not_empty-ok : (e : Error) (s t : Text) → not_empty e s ≡ ok t → t ≢ []
not_empty-ok e [] t h = absurd (ground arith)
not_empty-ok e (ch ∷ s) t h = λ z. ground (arith, h, z)

pub column-ok :
    (P : Text → Type 0) (check : Text → Result Text) (o : Option Text) (old t : Text)
    → ((s t : Text) → check s ≡ ok t → P t)
    → P old
    → column check o old ≡ ok t
    → P t
column-ok P check none old t h p e = subst P (ground (arith, e)) p
column-ok P check (some s) old t h p e = h s t e

pub found_more :
    (p : Client → Bool) (c : Client) (cs : List Client)
    → is_some (find p cs) ≡ true
    → is_some (find p (c ∷ cs)) ≡ true
found_more p c cs h = elim (Bool-cases (p c)) [ inl t ↦ rw t refl | inr t ↦ rw t h ]

-- A change that leaves the ids.
module _ (q : Client → Bool) (f : Client → Client) (same : (c : Client) → (f c).id ≡ c.id) where
  found_changed :
      (id : ℕ) (cs : List Client)
      → is_some (find (has_id id) cs) ≡ true
      → is_some (find (has_id id) (update_where q f cs)) ≡ true
  found_changed id [] h = h
  found_changed id (c ∷ cs) h = elim (Bool-cases (q c)) [
    | inl t ↦ elim (Bool-cases (c.id == id)) [
      | inl u ↦ let u' : ((f c).id == id) ≡ true = ap (λ n. n == id) (same c) ∙ u in rw (t, u') refl
      | inr u ↦
          let u' : ((f c).id == id) ≡ false = ap (λ n. n == id) (same c) ∙ u in
          rw (t, u') (found_changed id cs (rw u at h))
    ]
    | inr t ↦ elim (Bool-cases (c.id == id)) [
      | inl u ↦ rw (t, u) refl
      | inr u ↦ rw (t, u) (found_changed id cs (rw u at h))
    ]
  ]

  pub changed_clients :
      (s : Store)
      → ((c : Client) → q c ≡ true → HasClientData c → HasClientData (f c))
      → IsCatalog s
      → IsCatalog (record s { clients = update_where q f s.clients })
  changed_clients s d i = record {
    clients = All-update_where HasClientData HasClientData q f s.clients d (λ c t h. h) i.clients;
    projects = i.projects;
    owned =
        All-map (HasOwner s.clients) (HasOwner (update_where q f s.clients)) s.projects
          (λ p h. found_changed p.client_id s.clients h) i.owned;
  }
