-- ===== src/Organization/Closed.antt =====
-- Nobody gets through to a handler of an organization that was deactivated.
use mathlib.Core.Path.{subst}
use consulting_revenue_platf.Prelude.{
  ℕ, ◌≡◌, refl, sym, ◌∙◌, ◌⊎◌, inl, inr, true, false, some, some_inj, List, [], ◌∷◌, All,
  Bool-cases, find, find_sound, All-find, update_where, arith,
}
use consulting_revenue_platf.Prelude.Text.{Text}
use consulting_revenue_platf.Store.{
  MembershipStatus, Membership, Organization, Store, organization_not_found, Result, ok, err, Db,
  Ensures-query, Ensures-found, Ensures-if, Ensures-pure, Ensures-exec, Ensures-exec_last, Outcome,
  run_in_tx-Outcome,
}
use consulting_revenue_platf.Store.Pool.{Pool}
use consulting_revenue_platf.Auth.Reply.{Reply, success, refusal, Handler}
use consulting_revenue_platf.Auth.Success.{Replied, IsRefusal}
use consulting_revenue_platf.Auth.Handlers.{Crypto}
use consulting_revenue_platf.Auth.Tenant.{Principal, is_membership, route}
use consulting_revenue_platf.Auth.Admitted.{Admitted, route-Replies}
use consulting_revenue_platf.Organization.{
  is_organization, is_deactivated, close, is_active_in, suspend, deactivate_tx,
  deactivate_organization,
}

-- No membership of the organization is active.
abbrev pub HasNoneActive : ℕ → List Membership → Type 0
HasNoneActive id ms = All (λ m. is_active_in id m ≡ false) ms

suspended_all :
    (id : ℕ) (ms : List Membership)
    → HasNoneActive id
        (update_where (is_active_in id) (λ m. record m { status = MembershipStatus.suspended }) ms)
suspended_all id [] = tt
suspended_all id (m ∷ ms) = elim (Bool-cases (is_active_in id m)) [
  | inl t ↦ rw t (ground arith, suspended_all id ms)
  | inr t ↦ rw t (t, suspended_all id ms)
]

module _ (id now : ℕ) where
  -- What was done: all is closed, or the organization was deactivated before.
  abbrev Closed : Store → Store → Type 0
  Closed s s' =
      HasNoneActive id s'.memberships
      ⊎ ((o : Organization) × (find (is_organization id) s.organizations ≡ some o)
          × (is_deactivated o ≡ true))

  deactivate-Outcome :
      (d : Db)
      → Outcome
          (λ u s'. Closed d.store s')
          (λ e b s'. e ≡ organization_not_found)
          d
          (deactivate_organization id now d)
  unfolding deactivate_organization deactivate_tx
  deactivate-Outcome d = run_in_tx-Outcome _ _ _ d (
      Ensures-query _ _ (
        Ensures-found _ _ _ (λ h. refl)
          λ o f.
            Ensures-if (is_deactivated o) _ _ (λ t. Ensures-pure tt (inr (o, f, t)))
              λ t.
                Ensures-exec (close id now) _
                  (Ensures-exec_last (suspend id) (inl (suspended_all id d.store.memberships)))))

  none_active :
      (d : Db) (o : Organization) (r : Result (Unit {0}) × Db)
      → find (is_organization id) d.store.organizations ≡ some o
      → is_deactivated o ≡ false
      → Outcome (λ u s'. Closed d.store s') (λ e b s'. e ≡ organization_not_found) d r
      → r.0 ≡ ok tt
      → HasNoneActive id r.1.store.memberships
  none_active d o (ok u, d') f n (inl h) e = h
  none_active d o (ok u, d') f n (inr (x, g, t)) e =
      let same : is_deactivated x ≡ is_deactivated o =
        subst (λ y. is_deactivated x ≡ is_deactivated y) (some_inj (sym g ∙ f)) refl in
      absurd (ground (arith, same, n, t))
  none_active d o (err x, d') f n h e = absurd (ground (arith, e))

  module _ (c : Crypto) (signing_key : Text) (authorization org action : Text) where
    not-Admitted :
        (at : ℕ) (s : Store) (u : Principal)
        → HasNoneActive id s.memberships
        → c.parse_uuid org ≡ some id
        → Admitted c at authorization org action s u
        → ⊥
    not-Admitted at s u h i a =
        let same : u.organization_id ≡ id = some_inj (sym a.organization ∙ i) in
        let met : is_membership u.user_id u.organization_id a.member ≡ true =
          find_sound _ s.memberships a.member a.found in
        let no : is_active_in id a.member ≡ false =
          All-find (λ m. is_active_in id m ≡ false) (is_membership u.user_id u.organization_id)
            s.memberships a.member h a.found in
        ground (arith, same, met, no)

    module _ {B : Type 0} (at : ℕ) (next : Principal → Handler B) where
      refused : (r : Reply B × Pool) → Replied (λ b s'. ⊥) r → IsRefusal r.0
      refused (success n b, p) h = absurd h.1
      refused (refusal n code, p) h = tt

      -- An organization that was deactivated is closed: where it was not before and the call succeeded, and
      -- the tables stay as the call left them, every request to a route for it is refused, whoever
      -- sends it, whatever its token and the action, at any later time and with any calls of the driver
      -- failed.
      pub deactivate_organization-IsRefusal :
          (d : Db) (o : Organization) (p : Pool)
          → c.parse_uuid org ≡ some id
          → find (is_organization id) d.store.organizations ≡ some o
          → is_deactivated o ≡ false
          → (deactivate_organization id now d).0 ≡ ok tt
          → p.store ≡ (deactivate_organization id now d).1.store
          → p.others ≡ []
          → IsRefusal (route c signing_key at action next authorization org p).0
      deactivate_organization-IsRefusal d o p i f n e same alone =
          let s = (deactivate_organization id now d).1.store in
          let h = none_active d o (deactivate_organization id now d) f n (deactivate-Outcome d) e in
          refused _ (
            weak _ (
              (route-Replies c signing_key at authorization org action s next (λ u b s'. ⊥)
                  (λ u a. absurd (not-Admitted at s u h i a))).apply
                p same alone))
        where
          weak :
              (r : Reply B × Pool)
              → Replied
                  (λ b s'.
                    (u : Principal) × Admitted c at authorization org action
                      (deactivate_organization id now d).1.store
                      u
                    × ⊥)
                  r
              → Replied (λ b s'. ⊥) r
          weak (success n b, p) h = absurd h.1.2
          weak (refusal n code, p) h = tt
