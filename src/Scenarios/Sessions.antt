-- ===== src/Scenarios/Sessions.antt =====
-- Runs on sessions: a user with a membership, and a session that is live.
use consulting_revenue_platf.Prelude.{
  ℕ, ◌≡◌, refl, ap, Option, none, some, List, [], ◌∷◌, ◌-◌, All, arith,
}
use consulting_revenue_platf.Prelude.Text.{Text, codes, text_eq, trim_space, to_lower}
use consulting_revenue_platf.Prelude.Search.{has_prefix}
use consulting_revenue_platf.Store.{MembershipStatus, Membership, User, AuthSession, Store, Role}
use consulting_revenue_platf.Store.Pool.{Pool, pool_steps}
use consulting_revenue_platf.Auth.Reply.{Reply, success, reply, calling, recovering, ignoring}
use consulting_revenue_platf.Auth.Success.{IsRefusal}
use consulting_revenue_platf.Auth.Sessions.{
  insert_auth_session, get_session_by_hash, update_session_refresh, revoke_session, session_belongs,
  get_user_by_email,
}
use consulting_revenue_platf.Auth.Handlers.{
  Crypto, Random, Tokens, login, refresh, logout, bearer_token, insert_log,
}
use consulting_revenue_platf.Auth.Rotation.{refresh_once}
use consulting_revenue_platf.Auth.Revoked.{
  SessionStep, SessionRequest, logging_in, refreshing, logging_out, serve_sessions,
  serve_sessions-Steps,
}
use consulting_revenue_platf.Scenarios.{empty_store}

-- An id is one digit, a token the digits of its user and session, and a hash the token itself.
abbrev pub sample_uuid : Text → Option ℕ
sample_uuid [] = none
sample_uuid (ch ∷ []) = some (ch - b'0')
sample_uuid (ch ∷ x ∷ s) = none

abbrev sample_claims : Text → Option (Text × Text)
sample_claims [] = none
sample_claims (u ∷ []) = none
sample_claims (u ∷ s ∷ xs) = some (u ∷ [], s ∷ [])

abbrev pub sample_crypto : Crypto
sample_crypto = record {
  hash_token = λ t. t;
  check_password = text_eq;
  issue_token = λ user session now. some (codes "58");
  parse_token = λ t now. sample_claims t;
  parse_uuid = sample_uuid;
}

abbrev sample_user : User
sample_user = record {
  id = 5;
  email = codes "A@b.c";
  password_hash = codes "pw";
  full_name = codes "Ada";
}

abbrev sample_session : AuthSession
sample_session = record {
  id = 8;
  user_id = 5;
  refresh_token_hash = codes "old";
  family_id = 3;
  expires_at = 100;
  revoked_at = none;
}

abbrev pub sample_member : Role → Membership
sample_member role = record {
  id = 60;
  user_id = 5;
  organization_id = 1;
  role = role;
  status = MembershipStatus.active;
}

abbrev sessions_store : Store
sessions_store = record empty_store {
  users = sample_user ∷ [];
  auth_sessions = sample_session ∷ [];
}

abbrev sessions_pool : Pool
sessions_pool = record { store = sessions_store; faults = []; others = []; writes = [] }

abbrev sign : Text
sign = codes "key"

-- What a run of these handlers computes with.
session_steps : Unit {0}
unfolding pool_steps reply calling recovering ignoring insert_log insert_auth_session
    get_session_by_hash update_session_refresh revoke_session session_belongs get_user_by_email
    bearer_token login refresh logout trim_space to_lower has_prefix
session_steps = tt

abbrev rotated : Reply Tokens × Pool
rotated = refresh sample_crypto sign 50 (some (codes "new")) 10 (some (codes "old")) sessions_pool

abbrev new_tokens : Tokens
new_tokens = record { access_token = codes "58"; refresh_token = codes "new" }

rotates : rotated ≡ (success 200 new_tokens, rotated.1)
unfolding session_steps
rotates = refl

abbrev first : Text → ℕ
first [] = 0
first (ch ∷ s) = ch

refresh_once_example :
    IsRefusal (refresh sample_crypto sign 50 (some (codes "x")) 20 (some (codes "old")) rotated.1).0
refresh_once_example =
    refresh_once sample_crypto sign 50 (codes "new") (codes "old") (some (codes "x")) 10 20 200
      new_tokens sessions_pool rotated.1 refl (tt, tt) (λ h. omega (arith, ap first h)) rotates

abbrev random : Random
random = record { token = some (codes "t"); session_id = 9; family_id = 4 }

-- A login, a refresh, a logout, and a refresh with the token of the session that has ended.
abbrev session_requests : List SessionRequest
session_requests =
    logging_in random 10 (some (codes " a@B.c", codes "pw"))
    ∷ refreshing (some (codes "new")) 11 (some (codes "old"))
    ∷ logging_out 12 (codes "Bearer 58")
    ∷ refreshing (some (codes "newer")) 13 (some (codes "new"))
    ∷ []

logs_in :
    (login sample_crypto sign 50 random 10 (some (codes " a@B.c", codes "pw")) sessions_pool).0
    ≡ success 200 (record { access_token = codes "58"; refresh_token = codes "t" })
unfolding session_steps
logs_in = refl

logs_out : (logout sample_crypto sign 50 12 (codes "Bearer 58") sessions_pool).0 ≡ success 204 tt
unfolding session_steps
logs_out = refl

-- Two refreshes with one token at once: the second one reads the session before the first has
-- written, and both succeed.
abbrev both_read : Pool
both_read = record sessions_pool {
  others =
      (λ s. s)
      ∷ (λ s.
          (refresh sample_crypto sign 50 (some (codes "new")) 10 (some (codes "old"))
            (record { store = s; faults = []; others = []; writes = [] })).1.store)
      ∷ [];
}

refreshes_twice :
    (refresh sample_crypto sign 50 (some (codes "newer")) 10 (some (codes "old")) both_read).0
    ≡ success 200 (record { access_token = codes "58"; refresh_token = codes "newer" })
unfolding session_steps
refreshes_twice = refl

serve_sessions-Steps_example :
    All
      (λ w. SessionStep w.0 w.1)
      (serve_sessions sample_crypto sign 50 session_requests sessions_pool).writes
serve_sessions-Steps_example =
    serve_sessions-Steps sample_crypto sign 50 session_requests sessions_pool refl
