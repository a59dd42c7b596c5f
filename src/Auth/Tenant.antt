-- ===== src/Auth/Tenant.antt =====
-- `requireTenantAuth` and `requireRole` of internal/httpapi/middleware_tenant.go, around a handler.
use consulting_revenue_platf.Prelude.{
  ℕ, Bool, true, false, ◌&&◌, Option, none, some, [], ◌∷◌, ◌==◌, if◌then◌else◌, find,
}
use consulting_revenue_platf.Prelude.Text.{Text}
use consulting_revenue_platf.Store.{Membership, MembershipStatus, Error, membership_not_found}
use consulting_revenue_platf.Store.Pool.{Op, query, or_throw, ◌>>=◌}
use consulting_revenue_platf.Membership.Roles.{role_text, role_allows}
use consulting_revenue_platf.Auth.Reply.{
  Reply, Handler, reply, calling, unavailable, invalid, unauthorized, forbidden, internal,
}
use consulting_revenue_platf.Auth.Handlers.{Crypto, is_none_text, bearer_token}

-- `Principal`.
pub record Principal : Type 0 where
  pub user_id : ℕ
  pub organization_id : ℕ
  pub role : Text
  pub session_id : ℕ

abbrev pub is_active : MembershipStatus → Bool
is_active MembershipStatus.active = true
is_active MembershipStatus.invited = false
is_active MembershipStatus.suspended = false

-- `WHERE user_id = $1 AND organization_id = $2 AND status = 'active'`.
abbrev pub is_membership : ℕ → ℕ → Membership → Bool
is_membership user org m = m.user_id == user && m.organization_id == org && is_active m.status

-- `GetActiveMembershipRole`.
unfoldable pub get_active_role : ℕ → ℕ → Op Membership
get_active_role user org = query (λ s. find (is_membership user org) s.memberships) >>= λ row.
    or_throw row membership_not_found

module _ {B : Type 0} where
  abbrev pub on_role_error : Error → Reply B
  on_role_error membership_not_found = forbidden
  on_role_error e = internal

  module _ (c : Crypto) (signing_key : Text) (now : ℕ) (next : Principal → Handler B) where
    abbrev pub with_organization : ℕ → ℕ → Option ℕ → Handler B
    with_organization user session none = reply invalid
    with_organization user session (some org) =
        calling (get_active_role user org) on_role_error (λ m. next (record {
          user_id = user;
          organization_id = org;
          role = role_text m.role;
          session_id = session;
        }))

    abbrev pub with_identities : Text → Option ℕ → Option ℕ → Handler B
    with_identities org none session = reply unauthorized
    with_identities org (some user) none = reply unauthorized
    with_identities org (some user) (some session) =
        if is_none_text org
        then reply invalid
        else with_organization user session (c.parse_uuid org)

    abbrev pub with_access : Text → Option (Text × Text) → Handler B
    with_access org none = reply unauthorized
    with_access org (some (user, session)) =
        with_identities org (c.parse_uuid user) (c.parse_uuid session)

    abbrev pub with_header : Text → Option Text → Handler B
    with_header org none = reply unauthorized
    with_header org (some []) = reply unauthorized
    with_header org (some (ch ∷ raw)) = with_access org (c.parse_token (ch ∷ raw) now)

    -- `requireTenantAuth`: the Authorization and X-Organization-ID headers.
    unfoldable pub require_tenant_auth : Text → Text → Handler B
    require_tenant_auth authorization org =
        if is_none_text signing_key
        then reply unavailable
        else with_header org (bearer_token authorization)

  -- `requireRole`.
  unfoldable pub require_role : Text → (Principal → Handler B) → Principal → Handler B
  require_role action next p = if role_allows p.role action then next p else reply forbidden

  -- A route: both, around its handler.
  unfoldable pub route :
      Crypto → Text → ℕ → Text → (Principal → Handler B) → Text → Text → Handler B
  unfolding require_tenant_auth require_role
  route c signing_key now action next =
      require_tenant_auth c signing_key now (require_role action next)
