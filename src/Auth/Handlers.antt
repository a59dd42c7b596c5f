-- ===== src/Auth/Handlers.antt =====
-- Login, refresh and logout (internal/httpapi/auth_session.go). What is random, bcrypt, the hash of a
-- token, JSON and JWT are arguments. The audit log is written by statements whose errors are ignored.
use consulting_revenue_platf.Prelude.{
  ℕ, ◌+◌, Bool, true, false, ◌||◌, Option, none, some, [], ◌∷◌, if◌then◌else◌, drop, ◌==◌, find,
}
use consulting_revenue_platf.Prelude.Text.{Text, codes, trim_space}
use consulting_revenue_platf.Prelude.Search.{has_prefix}
use consulting_revenue_platf.Store.{
  AuthSession, User, AuditLog, Store, Result, Error, no_rows, user_not_found,
}
use consulting_revenue_platf.Store.Pool.{Op, statement, constrained}
use consulting_revenue_platf.Auth.Reply.{
  Reply, success, refusal, Handler, reply, calling, recovering, ignoring, unavailable, invalid,
  unauthorized, internal,
}
use consulting_revenue_platf.Auth.Sessions.{
  insert_auth_session, get_session_by_hash, update_session_refresh, revoke_session, session_belongs,
  get_user_by_email,
}

-- What the handlers use of cryptography: the hash of a refresh token, the check of a password, an
-- access token for a user and a session at a time, and what a valid one holds.
pub record Crypto : Type 0 where
  pub hash_token : Text → Text
  pub check_password : Text → Text → Bool
  pub issue_token : ℕ → ℕ → ℕ → Option Text
  pub parse_token : Text → ℕ → Option (Text × Text)
  pub parse_uuid : Text → Option ℕ

-- What is made for a new session: `auth.NewRefreshToken` may fail.
pub record Random : Type 0 where
  pub token : Option Text
  pub session_id : ℕ
  pub family_id : ℕ

-- `tokenResponse`, less its constants.
pub record Tokens : Type 0 where
  pub access_token : Text
  pub refresh_token : Text

abbrev pub invalid_token : {B : Type 0} → Reply B
invalid_token = refusal 401 (codes "invalid_token")

abbrev pub invalid_credentials : {B : Type 0} → Reply B
invalid_credentials = refusal 401 (codes "invalid_credentials")

abbrev pub is_none_text : Text → Bool
is_none_text [] = true
is_none_text (c ∷ s) = false

-- The row that the handlers log of a session, or of a login that failed.
abbrev pub session_log : Text → Option ℕ → Option ℕ → AuditLog
session_log action user session = record {
  organization_id = none;
  actor_user_id = user;
  action = action;
  entity_type = codes "session";
  entity_id = session;
}

-- `actor_user_id REFERENCES users (id)`.
abbrev pub actor_known : Option ℕ → Store → Bool
actor_known none s = true
actor_known (some user) s = elim (find (λ (u : User). u.id == user) s.users) [
  | none ↦ false
  | some u ↦ true
]

-- `InsertAuditLog`, as `logAudit` calls it.
abbrev pub add_log : AuditLog → Store → Result (Unit {0} × Store)
add_log row s =
    constrained (actor_known row.actor_user_id s) tt (record s { audit_logs = row ∷ s.audit_logs })

unfoldable pub insert_log : AuditLog → Op (Unit {0})
unfolding statement constrained
insert_log row = statement (add_log row)

-- `logAudit`, and what follows it.
abbrev pub log_audit : {B : Type 0} → AuditLog → Handler B → Handler B
log_audit row k = ignoring (insert_log row) k

abbrev pub issued : AuditLog → Text → Option Text → Handler Tokens
issued row raw none = reply internal
issued row raw (some access) =
    log_audit row (reply (success 200 (record { access_token = access; refresh_token = raw })))

abbrev pub on_session_error : Error → Reply Tokens
on_session_error no_rows = invalid_token
on_session_error e = internal

abbrev pub failed_login : Handler Tokens
failed_login = log_audit (session_log (codes "auth.login") none none) (reply invalid_credentials)

abbrev pub on_user_error : Error → Handler Tokens
on_user_error user_not_found = failed_login
on_user_error e = reply internal

-- `bearerToken`.
unfoldable pub bearer_token : Text → Option Text
unfolding has_prefix trim_space
bearer_token h = if has_prefix (codes "Bearer ") h then some (trim_space (drop 7 h)) else none

module _ (c : Crypto) (signing_key : Text) (ttl : ℕ) where
  abbrev pub rotate : ℕ → AuthSession → Option Text → Handler Tokens
  rotate now x none = reply internal
  rotate now x (some raw) =
      calling (update_session_refresh x.id (c.hash_token raw) (now + ttl)) (λ e. invalid_token)
        (λ u.
          issued (session_log (codes "auth.refresh") (some x.user_id) (some x.id)) raw
            (c.issue_token x.user_id x.id now))

  abbrev pub refresh_with : Option Text → ℕ → Text → Handler Tokens
  refresh_with fresh now raw =
      if is_none_text (trim_space raw)
      then reply invalid
      else calling (get_session_by_hash (c.hash_token raw) now) on_session_error
          (λ x. rotate now x fresh)

  abbrev pub decoded : {A : Type 0} → (A → Handler Tokens) → Option A → Handler Tokens
  decoded k none = reply invalid
  decoded k (some a) = k a

  -- `refresh`: the body is `none` where it is refused.
  unfoldable pub refresh : Option Text → ℕ → Option Text → Handler Tokens
  unfolding trim_space
  refresh fresh now body =
      if is_none_text signing_key then reply unavailable else decoded (refresh_with fresh now) body

  abbrev pub open_session : Random → ℕ → User → Option Text → Handler Tokens
  open_session r now u none = reply internal
  open_session r now u (some raw) =
      calling (insert_auth_session r.session_id u.id (c.hash_token raw) r.family_id (now + ttl))
        (λ e. internal)
        (λ sid.
          issued (session_log (codes "auth.login") (some u.id) (some sid)) raw
            (c.issue_token u.id sid now))

  abbrev pub login_with : Random → ℕ → Text × Text → Handler Tokens
  login_with r now (email, password) =
      if is_none_text (trim_space email) || is_none_text password
      then reply invalid
      else recovering (get_user_by_email email) on_user_error (λ u.
        if c.check_password u.password_hash password
        then open_session r now u r.token
        else failed_login)

  -- `login`: email and password.
  unfoldable pub login : Random → ℕ → Option (Text × Text) → Handler Tokens
  unfolding trim_space
  login r now body =
      if is_none_text signing_key then reply unavailable else decoded (login_with r now) body

  abbrev pub end_session : ℕ → ℕ → ℕ → Handler (Unit {0})
  end_session now sid uid =
      calling (session_belongs sid uid) (λ e. internal)
        (λ b.
          if b
          then calling (revoke_session sid now) (λ e. internal)
              (λ u.
                log_audit (session_log (codes "auth.logout") (some uid) (some sid))
                  (reply (success 204 tt)))
          else reply unauthorized)

  abbrev pub with_ids : ℕ → Option ℕ → Option ℕ → Handler (Unit {0})
  with_ids now none u = reply unauthorized
  with_ids now (some sid) none = reply unauthorized
  with_ids now (some sid) (some uid) = end_session now sid uid

  abbrev pub with_claims : ℕ → Option (Text × Text) → Handler (Unit {0})
  with_claims now none = reply unauthorized
  with_claims now (some (user, session)) = with_ids now (c.parse_uuid session) (c.parse_uuid user)

  abbrev pub with_bearer : ℕ → Option Text → Handler (Unit {0})
  with_bearer now none = reply unauthorized
  with_bearer now (some []) = reply unauthorized
  with_bearer now (some (ch ∷ raw)) = with_claims now (c.parse_token (ch ∷ raw) now)

  -- `logout`, by the Authorization header.
  unfoldable pub logout : ℕ → Text → Handler (Unit {0})
  unfolding bearer_token
  logout now header =
      if is_none_text signing_key then reply unavailable else with_bearer now (bearer_token header)
