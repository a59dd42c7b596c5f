-- ===== src/Catalog/Listed.antt =====
-- Which clients the route that lists them shows.
use mathlib.Core.Path.{subst}
use consulting_revenue_platf.Prelude.{
  ℕ, ◌≡◌, refl, ◌⊎◌, inl, inr, Bool, true, false, ◌&&◌, not, Option, none, some, List, [], ◌∷◌, All,
  Bool-cases, select, arith,
}
use consulting_revenue_platf.Prelude.Text.{Text, trim_space}
use consulting_revenue_platf.Store.{Client, Store, ok}
use consulting_revenue_platf.Store.Pool.{Pool, query}
use consulting_revenue_platf.Store.Alone.{Alone-statement}
use consulting_revenue_platf.Membership.Roles.{role_allows, client_read, client_write}
use consulting_revenue_platf.Auth.Reply.{success}
use consulting_revenue_platf.Auth.Success.{
  Replied, Replies, Replies-refusal, Replies-reply, Replies-calling, Replies-if,
}
use consulting_revenue_platf.Auth.Handlers.{Crypto}
use consulting_revenue_platf.Auth.Tenant.{Principal, route}
use consulting_revenue_platf.Auth.Admitted.{Admitted, route-Replies}
use consulting_revenue_platf.Catalog.Clients.{
  is_kept, is_shown, is_sooner, insert_by_creation, order_clients, list_clients,
}
use consulting_revenue_platf.Catalog.Routes.{parse_bool, handle_list_clients}

-- A client of the organization, that is not deleted, unless the role may write clients.
abbrev pub ClientVisible : Principal → Client → Type 0
ClientVisible u c =
    (c.organization_id ≡ u.organization_id)
    × ((role_allows u.role client_write ≡ true) ⊎ (c.deleted_at ≡ none))

module _ (P : Client → Type 0) where
  All-insert_by_creation :
      (c : Client) (cs : List Client) → P c → All P cs → All P (insert_by_creation c cs)
  All-insert_by_creation c [] p h = (p, tt)
  All-insert_by_creation c (x ∷ xs) p h = elim (Bool-cases (is_sooner c x)) [
    | inl t ↦ rw t (p, h)
    | inr t ↦ rw t (h.0, All-insert_by_creation c xs p h.1)
  ]

  All-order_clients : (cs : List Client) → All P cs → All P (order_clients cs)
  All-order_clients [] h = tt
  All-order_clients (c ∷ cs) h =
      All-insert_by_creation c (order_clients cs) h.0 (All-order_clients cs h.1)

kept_lem : (o : Option ℕ) → is_kept o ≡ true → o ≡ none
kept_lem none h = refl
kept_lem (some t) h = absurd (ground arith)

module _ (u : Principal) (include_deleted : Bool)
    (allowed : (include_deleted && not (role_allows u.role client_write)) ≡ false) where
  visible :
      (b : Bool) (c : Client)
      → include_deleted ≡ b
      → is_shown u.organization_id include_deleted c ≡ true
      → ClientVisible u c
  visible true c e h = (ground arith, inl (ground (arith, e, allowed)))
  visible false c e h = (ground arith, inr (kept_lem c.deleted_at (ground (arith, e, h))))

  All-shown :
      (cs : List Client)
      → All (ClientVisible u) (select (is_shown u.organization_id include_deleted) cs)
  All-shown [] = tt
  All-shown (c ∷ cs) = elim (Bool-cases (is_shown u.organization_id include_deleted c)) [
    | inl t ↦ rw t (visible include_deleted c refl t, All-shown cs)
    | inr t ↦ rw t (All-shown cs)
  ]

handle_list_clients-Replies :
    (u : Principal) (raw : Text) (s : Store)
    → Replies (handle_list_clients u raw) s (λ cs s'. (s' ≡ s) × All (ClientVisible u) cs)
unfolding handle_list_clients list_clients query
handle_list_clients-Replies u raw s =
    Replies-if (parse_bool (trim_space raw) && not (role_allows u.role client_write)) _ _
      (λ t. Replies-refusal _ tt)
      (λ t.
        Replies-calling _ _ _ (λ e. tt)
          (Alone-statement
            (λ x. ok (
              order_clients
                  (select (is_shown u.organization_id (parse_bool (trim_space raw))) x.clients),
              x,
            ))
            (Replies-reply {Q = λ cs s'. (s' ≡ s) × All (ClientVisible u) cs} 200 _ (
              refl,
              All-order_clients (ClientVisible u) _
                  (All-shown u (parse_bool (trim_space raw)) t s.clients),
            ))))

-- The listing of clients behind the middleware, where no other connection writes in between: where it
-- succeeds the caller has a valid token and an active membership in the organization that it names,
-- with a role that may read clients; every client shown is of that organization, and none is deleted
-- unless the role may write clients; and nothing has changed.
pub list_clients_route-IsScoped :
    (c : Crypto) (signing_key : Text) (now n : ℕ) (authorization org raw : Text) (p p' : Pool)
    (cs : List Client)
    → p.others ≡ []
    → route c signing_key now client_read (λ u. handle_list_clients u raw) authorization org p
      ≡ (success n cs, p')
    → (u : Principal) × Admitted c now authorization org client_read p.store u
      × (p'.store ≡ p.store)
      × All (ClientVisible u) cs
list_clients_route-IsScoped c signing_key now n authorization org raw p p' cs o e =
    let (none_between, (u, a, d)) = subst (Replied _) e (
      (route-Replies c signing_key now authorization org client_read p.store
          (λ u. handle_list_clients u raw) (λ u b s'. (s' ≡ p.store) × All (ClientVisible u) b)
          (λ u a. handle_list_clients-Replies u raw p.store)).apply
        p refl o) in
    (u, a, d.0, d.1)
