-- ===== src/Auth/Admitted.antt =====
-- Who gets through to a handler behind the middleware.
use consulting_revenue_platf.Prelude.{ℕ, ◌≡◌, refl, true, Option, none, some, [], ◌∷◌, find}
use consulting_revenue_platf.Prelude.Text.{Text}
use consulting_revenue_platf.Store.{Membership, Store, Error, membership_not_found}
use consulting_revenue_platf.Store.Alone.{Alone-query, Alone-or_throw}
use consulting_revenue_platf.Membership.Roles.{role_text, role_allows}
use consulting_revenue_platf.Auth.Reply.{Handler}
use consulting_revenue_platf.Auth.Success.{
  Replies, IsRefusal, Replies-refusal, Replies-calling, Replies-if, Replies-weaken,
}
use consulting_revenue_platf.Auth.Handlers.{Crypto, is_none_text, bearer_token}
use consulting_revenue_platf.Auth.Tenant.{
  Principal, is_membership, get_active_role, on_role_error, with_organization, with_identities,
  with_access, with_header, require_tenant_auth, require_role, route,
}

module _ (c : Crypto) (now : ℕ) (authorization org : Text) (action : Text) (s : Store) where
  -- The principal has a valid access token, names the organization, has an active membership in it, and
  -- its role allows the action.
  pub record Admitted (p : Principal) : Type 0 where
    pub token : Text
    pub bearer : bearer_token authorization ≡ some token
    pub user_text : Text
    pub session_text : Text
    pub claims : c.parse_token token now ≡ some (user_text, session_text)
    pub user : c.parse_uuid user_text ≡ some p.user_id
    pub organization : c.parse_uuid org ≡ some p.organization_id
    pub member : Membership
    pub found : find (is_membership p.user_id p.organization_id) s.memberships ≡ some member
    pub role : p.role ≡ role_text member.role
    pub allowed : role_allows p.role action ≡ true

role_error-IsRefusal : (B : Type 0) (e : Error) → IsRefusal (on_role_error {B = B} e)
role_error-IsRefusal B membership_not_found = tt
role_error-IsRefusal B e = tt

module _ {B : Type 0} (c : Crypto) (signing_key : Text) (now : ℕ) (authorization org : Text)
    (action : Text) (s : Store) (next : Principal → Handler B) (Q : Principal → B → Store → Type 0)
    (run : (p : Principal)
      → Admitted c now authorization org action s p
      → Replies (next p) s (Q p)) where
  abbrev Outer : B → Store → Type 0
  Outer b s' = (p : Principal) × Admitted c now authorization org action s p × Q p b s'

  abbrev guarded : Principal → Handler B
  guarded = require_role action next

  role_checked :
      (p : Principal)
      → (role_allows p.role action ≡ true → Admitted c now authorization org action s p)
      → Replies (guarded p) s Outer
  unfolding require_role
  role_checked p h =
      Replies-if (role_allows p.role action) _ _
        (λ t. Replies-weaken (λ b s' q. (p, h t, q)) (run p (h t))) (λ t. Replies-refusal _ tt)

  member_found :
      (token user_text session_text : Text) (user session : ℕ) (o : Option ℕ)
      → bearer_token authorization ≡ some token
      → c.parse_token token now ≡ some (user_text, session_text)
      → c.parse_uuid user_text ≡ some user
      → c.parse_uuid org ≡ o
      → Replies (with_organization c signing_key now guarded user session o) s Outer
  unfolding get_active_role
  member_found token ut st user session none b k u o = Replies-refusal _ tt
  member_found token ut st user session (some id) b k u o =
      Replies-calling _ _ _ (role_error-IsRefusal B) (
        Alone-query _ _ (
          Alone-or_throw _ _ λ m f.
            role_checked
              (record {
                user_id = user;
                organization_id = id;
                role = role_text m.role;
                session_id = session;
              })
              (λ t. record {
                token = token;
                bearer = b;
                user_text = ut;
                session_text = st;
                claims = k;
                user = u;
                organization = o;
                member = m;
                found = f;
                role = refl;
                allowed = t;
              })))

  identified :
      (token user_text session_text : Text) (user session : Option ℕ)
      → bearer_token authorization ≡ some token
      → c.parse_token token now ≡ some (user_text, session_text)
      → c.parse_uuid user_text ≡ user
      → Replies (with_identities c signing_key now guarded org user session) s Outer
  identified token ut st none session b k u = Replies-refusal _ tt
  identified token ut st (some user) none b k u = Replies-refusal _ tt
  identified token ut st (some user) (some session) b k u =
      Replies-if (is_none_text org) _ _ (λ t. Replies-refusal _ tt)
        (λ t. member_found token ut st user session (c.parse_uuid org) b k u refl)

  claimed :
      (token : Text) (o : Option (Text × Text))
      → bearer_token authorization ≡ some token
      → c.parse_token token now ≡ o
      → Replies (with_access c signing_key now guarded org o) s Outer
  claimed token none b k = Replies-refusal _ tt
  claimed token (some (ut, st)) b k =
      identified token ut st (c.parse_uuid ut) (c.parse_uuid st) b k refl

  headed :
      (o : Option Text)
      → bearer_token authorization ≡ o
      → Replies (with_header c signing_key now guarded org o) s Outer
  headed none b = Replies-refusal _ tt
  headed (some []) b = Replies-refusal _ tt
  headed (some (ch ∷ raw)) b = claimed (ch ∷ raw) (c.parse_token (ch ∷ raw) now) b refl

  -- A handler behind the middleware runs for admitted principals only.
  pub route-Replies : Replies (route c signing_key now action next authorization org) s Outer
  unfolding route require_tenant_auth
  route-Replies =
      Replies-if (is_none_text signing_key) _ _ (λ t. Replies-refusal _ tt)
        (λ t. headed (bearer_token authorization) refl)
