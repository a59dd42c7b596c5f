-- ===== src/Auth/Sessions.antt =====
-- internal/repo/session.go and internal/repo/user.go. The id of a new row is an argument.
use consulting_revenue_platf.Prelude.{
  ℕ, Bool, true, false, ◌&&◌, ◌||◌, not, Option, none, some, List, [], ◌∷◌, ◌==◌, ltb, find,
  count_where, update_where,
}
use consulting_revenue_platf.Prelude.Text.{Text, text_eq, trim_space, to_lower}
use consulting_revenue_platf.Store.{AuthSession, User, no_rows, user_not_found}
use consulting_revenue_platf.Store.Pool.{
  Op, constrained, statement, query, or_throw, throw_if, ◌>>=◌,
}

-- `revoked_at IS NULL`.
abbrev pub is_live : Option ℕ → Bool
is_live none = true
is_live (some t) = false

-- `UNIQUE (refresh_token_hash)`, and the primary key.
abbrev pub hash_taken : Text → List AuthSession → Bool
hash_taken h [] = false
hash_taken h (x ∷ xs) = text_eq x.refresh_token_hash h || hash_taken h xs

abbrev pub session_id_taken : ℕ → List AuthSession → Bool
session_id_taken id [] = false
session_id_taken id (x ∷ xs) = x.id == id || session_id_taken id xs

abbrev pub new_session : ℕ → ℕ → Text → ℕ → ℕ → AuthSession
new_session id user h family expires = record {
  id = id;
  user_id = user;
  refresh_token_hash = h;
  family_id = family;
  expires_at = expires;
  revoked_at = none;
}

-- `InsertAuthSession`.
unfoldable pub insert_auth_session : ℕ → ℕ → Text → ℕ → ℕ → Op ℕ
insert_auth_session id user h family expires = statement (λ s.
    constrained (not (hash_taken h s.auth_sessions) && not (session_id_taken id s.auth_sessions)) id
      (record s { auth_sessions = new_session id user h family expires ∷ s.auth_sessions }))

-- `WHERE refresh_token_hash = $1 AND revoked_at IS NULL AND expires_at > NOW()`.
abbrev pub is_current : Text → ℕ → AuthSession → Bool
is_current h now x = text_eq x.refresh_token_hash h && is_live x.revoked_at && ltb now x.expires_at

-- `GetAuthSessionByRefreshHash`.
unfoldable pub get_session_by_hash : Text → ℕ → Op AuthSession
get_session_by_hash h now =
    query (λ s. find (is_current h now) s.auth_sessions) >>= λ row. or_throw row no_rows

-- `WHERE id = $1 AND revoked_at IS NULL`.
abbrev pub is_live_session : ℕ → AuthSession → Bool
is_live_session id x = x.id == id && is_live x.revoked_at

abbrev pub set_refresh : Text → ℕ → AuthSession → AuthSession
set_refresh h expires x = record x { refresh_token_hash = h; expires_at = expires }

-- A hash that another row has breaks the unique index.
abbrev pub hash_taken_by_other : ℕ → Text → List AuthSession → Bool
hash_taken_by_other id h [] = false
hash_taken_by_other id h (x ∷ xs) =
    not (x.id == id) && text_eq x.refresh_token_hash h || hash_taken_by_other id h xs

-- `UpdateAuthSessionRefresh`.
unfoldable pub update_session_refresh : ℕ → Text → ℕ → Op (Unit {0})
update_session_refresh id h expires = do
  n ← statement (λ s.
      constrained
        (not (hash_taken_by_other id h s.auth_sessions)
          || count_where (is_live_session id) s.auth_sessions == 0)
        (count_where (is_live_session id) s.auth_sessions)
        (record s {
          auth_sessions = update_where (is_live_session id) (set_refresh h expires) s.auth_sessions;
        }))
  throw_if (n == 0) no_rows

abbrev pub revoke : ℕ → AuthSession → AuthSession
revoke now x = record x { revoked_at = some now }

-- `RevokeAuthSession`.
unfoldable pub revoke_session : ℕ → ℕ → Op (Unit {0})
revoke_session id now = statement (λ s.
    constrained true tt
      (record s { auth_sessions = update_where (is_live_session id) (revoke now) s.auth_sessions }))

-- `SessionBelongsToUser`.
unfoldable pub session_belongs : ℕ → ℕ → Op Bool
session_belongs id user = query (λ s.
    count_where (λ (x : AuthSession). is_live_session id x && x.user_id == user) s.auth_sessions
    == 1)

-- `GetUserAuthByEmail`: the column compares without case.
unfoldable pub get_user_by_email : Text → Op User
unfolding trim_space to_lower
get_user_by_email email =
    let e = trim_space (to_lower email) in
    query (λ s. find (λ (u : User). text_eq (to_lower u.email) e) s.users) >>= λ row.
    or_throw row user_not_found
