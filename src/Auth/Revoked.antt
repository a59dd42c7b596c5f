-- ===== src/Auth/Revoked.antt =====
-- What logins, refreshes and logouts leave alone, whatever other connections do in between.
use consulting_revenue_platf.Prelude.{
  ℕ, ◌≡◌, refl, ◌⊎◌, inl, inr, Bool, true, false, ◌||◌, Option, none, some, List, [], ◌∷◌,
  if◌then◌else◌, update_where, All, Bool-cases, arith,
}
use consulting_revenue_platf.Prelude.Text.{Text, codes, trim_space}
use consulting_revenue_platf.Store.{
  AuthSession, AuditLog, User, Store, Error, user_not_found, Result, ok, err,
}
use consulting_revenue_platf.Store.Pool.{Pool, Op}
use consulting_revenue_platf.Store.Rely.{
  Guarantees, Changes-constrained, Guarantees-statement, Guarantees-or_throw, Guarantees-throw_if,
  Guarantees-bind, Guarantees-query, Guarantees-read,
}
use consulting_revenue_platf.Auth.Reply.{
  Reply, Handler, reply, answered, calling, recovered, recovering, ignoring,
}
use consulting_revenue_platf.Auth.Sessions.{
  is_live, is_live_session, set_refresh, revoke, insert_auth_session, get_session_by_hash,
  update_session_refresh, revoke_session, session_belongs, get_user_by_email, new_session,
}
use consulting_revenue_platf.Auth.Handlers.{
  Crypto, Random, is_none_text, session_log, actor_known, insert_log, log_audit, issued,
  failed_login, on_user_error, rotate, refresh, open_session, login, with_ids, with_claims,
  with_bearer, bearer_token, logout,
}

-- A session that is live may get another token, expiry or end; its owner and family stay.
pub record Live (x y : AuthSession) : Type 0 where
  pub was_live : is_live x.revoked_at ≡ true
  pub same_id : y.id ≡ x.id
  pub same_user : y.user_id ≡ x.user_id
  pub same_family : y.family_id ≡ x.family_id

abbrev pub Stepped : List AuthSession → List AuthSession → Type 0
Stepped [] [] = Unit
Stepped [] (y ∷ ys) = ⊥
Stepped (x ∷ xs) [] = ⊥
Stepped (x ∷ xs) (y ∷ ys) = ((y ≡ x) ⊎ Live x y) × Stepped xs ys

-- What the handlers log is of sessions, and of no organization.
abbrev pub Logged : List AuditLog → List AuditLog → Type 0
Logged xs ys =
    (ys ≡ xs)
    ⊎ ((row : AuditLog) × (row.organization_id ≡ none)
        × (row.entity_type ≡ codes "session")
        × (ys ≡ row ∷ xs))

-- The sessions stay, or one is added in front; the audit log stays, or gets a row; and no other table
-- is touched.
pub record SessionStep (s s' : Store) : Type 0 where
  pub sessions :
      Stepped s.auth_sessions s'.auth_sessions
      ⊎ ((y : AuthSession) × (s'.auth_sessions ≡ y ∷ s.auth_sessions))
  pub log : Logged s.audit_logs s'.audit_logs
  pub rest : s' ≡ record s { auth_sessions = s'.auth_sessions; audit_logs = s'.audit_logs }

Stepped-same : (xs : List AuthSession) → Stepped xs xs
Stepped-same [] = tt
Stepped-same (x ∷ xs) = (inl refl, Stepped-same xs)

SessionStep-refl : (s : Store) → SessionStep s s
SessionStep-refl s = record {
  sessions = inl (Stepped-same s.auth_sessions);
  log = inl refl;
  rest = refl;
}

Stepped-update :
    (id : ℕ) (f : AuthSession → AuthSession)
    → ((x : AuthSession) → is_live x.revoked_at ≡ true → Live x (f x))
    → (xs : List AuthSession) → Stepped xs (update_where (is_live_session id) f xs)
Stepped-update id f h [] = tt
Stepped-update id f h (x ∷ xs) = elim (Bool-cases (is_live_session id x)) [
  | inl t ↦ rw t (inr (h x (ground arith)), Stepped-update id f h xs)
  | inr t ↦ rw t (inl refl, Stepped-update id f h xs)
]

kept-Live :
    (x : AuthSession) (h : Text) (e : ℕ) → is_live x.revoked_at ≡ true → Live x (set_refresh h e x)
kept-Live x h e t = record { was_live = t; same_id = refl; same_user = refl; same_family = refl }

revoked-Live : (x : AuthSession) (now : ℕ) → is_live x.revoked_at ≡ true → Live x (revoke now x)
revoked-Live x now t = record { was_live = t; same_id = refl; same_user = refl; same_family = refl }

abbrev Steps : {A : Type 0} → Op A → Type 0
Steps m = Guarantees SessionStep m

insert-Steps :
    (id user : ℕ) (h : Text) (family e : ℕ) → Steps (insert_auth_session id user h family e)
unfolding insert_auth_session
insert-Steps id user h family e = Guarantees-statement SessionStep SessionStep-refl _ λ s.
    Changes-constrained SessionStep s _ _ _ (λ t. record {
      sessions = inr (new_session id user h family e, refl);
      log = inl refl;
      rest = refl;
    })

get-Steps : (h : Text) (now : ℕ) → Steps (get_session_by_hash h now)
unfolding get_session_by_hash
get-Steps h now =
    Guarantees-query SessionStep SessionStep-refl _ _
      (λ o. Guarantees-or_throw SessionStep SessionStep-refl o _)

user-Steps : (email : Text) → Steps (get_user_by_email email)
unfolding get_user_by_email
user-Steps email =
    Guarantees-query SessionStep SessionStep-refl _ _
      (λ o. Guarantees-or_throw SessionStep SessionStep-refl o _)

update-Steps : (id : ℕ) (h : Text) (e : ℕ) → Steps (update_session_refresh id h e)
unfolding update_session_refresh
update-Steps id h e =
    Guarantees-bind SessionStep SessionStep-refl _ _
      (Guarantees-statement SessionStep SessionStep-refl _ λ s.
        Changes-constrained SessionStep s _ _ _ (λ t. record {
          sessions =
              inl (Stepped-update id (set_refresh h e) (λ x l. kept-Live x h e l) s.auth_sessions);
          log = inl refl;
          rest = refl;
        }))
      (λ n. Guarantees-throw_if SessionStep SessionStep-refl _ _)

revoke-Steps : (id now : ℕ) → Steps (revoke_session id now)
unfolding revoke_session
revoke-Steps id now = Guarantees-statement SessionStep SessionStep-refl _ λ s.
    Changes-constrained SessionStep s _ _ _ (λ t. record {
      sessions = inl (Stepped-update id (revoke now) (λ x l. revoked-Live x now l) s.auth_sessions);
      log = inl refl;
      rest = refl;
    })

belongs-Steps : (id user : ℕ) → Steps (session_belongs id user)
unfolding session_belongs
belongs-Steps id user = Guarantees-read SessionStep SessionStep-refl _

log-Steps :
    (action : Text) (user session : Option ℕ) → Steps (insert_log (session_log action user session))
unfolding insert_log
log-Steps action user session = Guarantees-statement SessionStep SessionStep-refl _ λ s.
    Changes-constrained SessionStep s (actor_known user s) tt _ (λ t. record {
      sessions = inl (Stepped-same s.auth_sessions);
      log = inr (session_log action user session, refl, refl, refl);
      rest = refl;
    })

-- Handlers make their steps by the repository's functions.
abbrev pub SoFar : Pool → Type 0
SoFar p = All (λ w. SessionStep w.0 w.1) p.writes

record HandlerSteps {B : Type 0} (h : Handler B) : Type 0 where
  apply : (p : Pool) → SoFar p → SoFar (h p).1

reply-Steps : {B : Type 0} (r : Reply B) → HandlerSteps (reply r)
unfolding reply
reply-Steps r = record { apply = λ p h. h }

answered-Steps :
    {A B : Type 0} (onerr : Error → Reply B) (k : A → Handler B) (r : Result A × Pool)
    → ((a : A) → HandlerSteps (k a))
    → SoFar r.1
    → SoFar (answered onerr k r).1
answered-Steps onerr k (ok a, p) h w = (h a).apply p w
answered-Steps onerr k (err e, p) h w = w

calling-Steps :
    {A B : Type 0} (m : Op A) (onerr : Error → Reply B) (k : A → Handler B)
    → Steps m
    → ((a : A) → HandlerSteps (k a))
    → HandlerSteps (calling m onerr k)
unfolding calling
calling-Steps m onerr k h q = record { apply = λ p w. answered-Steps onerr k (m p) q (h.apply p w) }

log_audit-Steps :
    {B : Type 0} (action : Text) (user session : Option ℕ) (k : Handler B)
    → HandlerSteps k
    → HandlerSteps (log_audit (session_log action user session) k)
unfolding ignoring
log_audit-Steps action user session k h = record {
  apply = λ p w. h.apply _ ((log-Steps action user session).apply p w);
}

recovered-Steps :
    {A B : Type 0} (onerr : Error → Handler B) (k : A → Handler B) (r : Result A × Pool)
    → ((e : Error) → HandlerSteps (onerr e))
    → ((a : A) → HandlerSteps (k a))
    → SoFar r.1
    → SoFar (recovered onerr k r).1
recovered-Steps onerr k (ok a, p) g h w = (h a).apply p w
recovered-Steps onerr k (err e, p) g h w = (g e).apply p w

recovering-Steps :
    {A B : Type 0} (m : Op A) (onerr : Error → Handler B) (k : A → Handler B)
    → Steps m
    → ((e : Error) → HandlerSteps (onerr e))
    → ((a : A) → HandlerSteps (k a))
    → HandlerSteps (recovering m onerr k)
unfolding recovering
recovering-Steps m onerr k h g q = record {
  apply = λ p w. recovered-Steps onerr k (m p) g q (h.apply p w);
}

failed_login-Steps : HandlerSteps failed_login
failed_login-Steps = log_audit-Steps (codes "auth.login") none none _ (reply-Steps _)

user_error-Steps : (e : Error) → HandlerSteps (on_user_error e)
user_error-Steps user_not_found = failed_login-Steps
user_error-Steps e = reply-Steps _

issued-Steps :
    (action : Text) (user session : Option ℕ) (raw : Text) (o : Option Text)
    → HandlerSteps (issued (session_log action user session) raw o)
issued-Steps action user session raw none = reply-Steps _
issued-Steps action user session raw (some access) =
    log_audit-Steps action user session _ (reply-Steps _)

if-Steps :
    {B : Type 0} (b : Bool) (h k : Handler B)
    → HandlerSteps h
    → HandlerSteps k
    → HandlerSteps (if b then h else k)
if-Steps true h k x y = x
if-Steps false h k x y = y

-- A request to one of the three handlers.
pub data SessionRequest : Type 0 where
  logging_in : Random → ℕ → Option (Text × Text) → SessionRequest
  refreshing : Option Text → ℕ → Option Text → SessionRequest
  logging_out : ℕ → Text → SessionRequest

module _ (c : Crypto) (signing_key : Text) (ttl : ℕ) where
  rotate-Steps :
      (now : ℕ) (x : AuthSession) (fresh : Option Text)
      → HandlerSteps (rotate c signing_key ttl now x fresh)
  rotate-Steps now x none = reply-Steps _
  rotate-Steps now x (some raw) =
      calling-Steps _ _ _ (update-Steps x.id _ _)
        (λ u. issued-Steps (codes "auth.refresh") _ _ raw _)

  refresh-Steps :
      (fresh : Option Text) (now : ℕ) (body : Option Text)
      → HandlerSteps (refresh c signing_key ttl fresh now body)
  unfolding refresh
  refresh-Steps fresh now none =
      if-Steps (is_none_text signing_key) _ _ (reply-Steps _) (reply-Steps _)
  refresh-Steps fresh now (some raw) = if-Steps (is_none_text signing_key) _ _ (reply-Steps _) (
      if-Steps (is_none_text (trim_space raw)) _ _ (reply-Steps _)
        (calling-Steps _ _ _ (get-Steps _ _) (λ x. rotate-Steps now x fresh)))

  open_session-Steps :
      (r : Random) (now : ℕ) (u : User) (t : Option Text)
      → HandlerSteps (open_session c signing_key ttl r now u t)
  open_session-Steps r now u none = reply-Steps _
  open_session-Steps r now u (some raw) =
      calling-Steps _ _ _ (insert-Steps _ _ _ _ _)
        (λ sid. issued-Steps (codes "auth.login") _ _ raw _)

  login-Steps :
      (r : Random) (now : ℕ) (body : Option (Text × Text))
      → HandlerSteps (login c signing_key ttl r now body)
  unfolding login
  login-Steps r now none = if-Steps (is_none_text signing_key) _ _ (reply-Steps _) (reply-Steps _)
  login-Steps r now (some (email, password)) =
      if-Steps (is_none_text signing_key) _ _ (reply-Steps _) (
        if-Steps (is_none_text (trim_space email) || is_none_text password) _ _ (reply-Steps _) (
          recovering-Steps _ _ _ (user-Steps _) user_error-Steps (λ u.
            if-Steps (c.check_password u.password_hash password) _ _
              (open_session-Steps r now u r.token) failed_login-Steps)))

  with_ids-Steps :
      (now : ℕ) (sid uid : Option ℕ) → HandlerSteps (with_ids c signing_key ttl now sid uid)
  with_ids-Steps now none uid = reply-Steps _
  with_ids-Steps now (some sid) none = reply-Steps _
  with_ids-Steps now (some sid) (some uid) = calling-Steps _ _ _ (belongs-Steps sid uid) (λ b.
      if-Steps b _ _
        (calling-Steps _ _ _ (revoke-Steps sid now)
          (λ u. log_audit-Steps (codes "auth.logout") _ _ _ (reply-Steps _)))
        (reply-Steps _))

  with_bearer-Steps :
      (now : ℕ) (o : Option Text) → HandlerSteps (with_bearer c signing_key ttl now o)
  with_bearer-Steps now none = reply-Steps _
  with_bearer-Steps now (some []) = reply-Steps _
  with_bearer-Steps now (some (ch ∷ raw)) = claims (c.parse_token (ch ∷ raw) now)
    where
      claims : (o : Option (Text × Text)) → HandlerSteps (with_claims c signing_key ttl now o)
      claims none = reply-Steps _
      claims (some (user, session)) = with_ids-Steps now (c.parse_uuid session) (c.parse_uuid user)

  logout-Steps : (now : ℕ) (header : Text) → HandlerSteps (logout c signing_key ttl now header)
  unfolding logout
  logout-Steps now header =
      if-Steps (is_none_text signing_key) _ _ (reply-Steps _)
        (with_bearer-Steps now (bearer_token header))

  pub serve : SessionRequest → Pool → Pool
  serve (logging_in r now body) p = (login c signing_key ttl r now body p).1
  serve (refreshing fresh now body) p = (refresh c signing_key ttl fresh now body p).1
  serve (logging_out now header) p = (logout c signing_key ttl now header p).1

  pub serve_sessions : List SessionRequest → Pool → Pool
  serve_sessions [] p = p
  serve_sessions (r ∷ rs) p = serve_sessions rs (serve r p)

  serve-Steps : (r : SessionRequest) (p : Pool) → SoFar p → SoFar (serve r p)
  unfolding serve
  serve-Steps (logging_in r now body) p h = (login-Steps r now body).apply p h
  serve-Steps (refreshing fresh now body) p h = (refresh-Steps fresh now body).apply p h
  serve-Steps (logging_out now header) p h = (logout-Steps now header).apply p h

  all_steps : (rs : List SessionRequest) (p : Pool) → SoFar p → SoFar (serve_sessions rs p)
  unfolding serve_sessions
  all_steps [] p h = h
  all_steps (r ∷ rs) p h = all_steps rs (serve r p) (serve-Steps r p h)

  -- Any logins, refreshes and logouts, with any calls failed and anything committed by others between
  -- their statements: no statement of them changes a session that is revoked at that moment, gives a
  -- session to another user or family, removes one, changes the audit log but for a row on sessions
  -- that it adds, or touches another table.
  pub serve_sessions-Steps :
      (rs : List SessionRequest) (p : Pool)
      → p.writes ≡ []
      → All (λ w. SessionStep w.0 w.1) (serve_sessions rs p).writes
  serve_sessions-Steps rs p h = all_steps rs p (rw h tt)
