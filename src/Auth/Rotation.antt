-- ===== src/Auth/Rotation.antt =====
-- A refresh token is used once: after its session is refreshed it is refused.
use consulting_revenue_platf.Prelude.{
  ℕ, ◌+◌, ◌≡◌, ◌≢◌, refl, sym, ap, ◌∙◌, ◌⊎◌, inl, inr, Bool, true, false, Option, none, some, List,
  [], ◌∷◌, find, update_where, All, All-map, All-find, All-update_where, Bool-cases, find_sound,
  some_inj, arith,
}
use mathlib.Core.Path.{subst}
use mathlib.Core.Option.{none-ne-some}
use consulting_revenue_platf.Prelude.Text.{Text, text_eq, text_eq_sound, trim_space}
use consulting_revenue_platf.Store.{AuthSession, AuditLog, Store, Error, no_rows}
use consulting_revenue_platf.Store.Pool.{Pool}
use consulting_revenue_platf.Store.Alone.{
  Alone, Alone-bind, Alone-query, Alone-or_throw, Alone-constrained, Alone-throw_if, Alone-weaken,
  Settles-constrained,
}
use consulting_revenue_platf.Auth.Reply.{Reply, success, refusal, reply}
use consulting_revenue_platf.Auth.Success.{
  Replied, Replies, IsRefusal, Replies-refusal, Replies-ignoring, Replies-reply, Replies-calling,
  Replies-if,
}
use consulting_revenue_platf.Auth.Sessions.{
  is_current, is_live_session, set_refresh, get_session_by_hash, update_session_refresh,
}
use consulting_revenue_platf.Auth.Handlers.{
  Crypto, Tokens, is_none_text, actor_known, add_log, insert_log, issued, on_session_error, refresh,
}

session_error-IsRefusal : (e : Error) → IsRefusal (on_session_error e)
session_error-IsRefusal no_rows = tt
session_error-IsRefusal e = tt

-- `UNIQUE (refresh_token_hash)`.
abbrev pub HasHashes : List AuthSession → Type 0
HasHashes [] = Unit
HasHashes (x ∷ xs) = All (λ y. x.refresh_token_hash ≢ y.refresh_token_hash) xs × HasHashes xs

find-none :
    (p : AuthSession → Bool) (xs : List AuthSession) → All (λ x. p x ≡ false) xs → find p xs ≡ none
find-none p [] h = refl
find-none p (x ∷ xs) h = rw h.0 (find-none p xs h.1)

hash_eq :
    (h : Text) (now : ℕ) (x : AuthSession) → is_current h now x ≡ true → x.refresh_token_hash ≡ h
hash_eq h now x t = text_eq_sound x.refresh_token_hash h (ground arith)

-- Only the session that was found has the hash.
found_alone :
    (h : Text) (now : ℕ) (xs : List AuthSession) (x : AuthSession)
    → HasHashes xs
    → find (is_current h now) xs ≡ some x
    → All (λ y. (y.refresh_token_hash ≢ h) ⊎ (y.id ≡ x.id)) xs
found_alone h now [] x d f = tt
found_alone h now (y ∷ ys) x d f = elim (Bool-cases (is_current h now y)) [
  | inl t ↦ (
    inr (ap (λ z. z.id) (some_inj (rw t at f))),
    All-map (λ z. y.refresh_token_hash ≢ z.refresh_token_hash)
        (λ z. (z.refresh_token_hash ≢ h) ⊎ (z.id ≡ x.id)) ys
        (λ z n. inl (λ e. n (hash_eq h now y t ∙ sym e))) d.0,
  )
  | inr t ↦
      let g : find (is_current h now) ys ≡ some x = rw t at f in
      let n : y.refresh_token_hash ≢ x.refresh_token_hash =
        All-find (λ z. y.refresh_token_hash ≢ z.refresh_token_hash) (is_current h now) ys x d.0 g in
      let e : x.refresh_token_hash ≡ h = hash_eq h now x (find_sound (is_current h now) ys x g) in
      (inl (λ q. n (q ∙ sym e)), found_alone h now ys x d.1 g)
]

text_ne : (s t : Text) → s ≢ t → text_eq s t ≡ false
text_ne s t n = elim (Bool-cases (text_eq s t)) [
  | inl e ↦ absurd (n (text_eq_sound s t e))
  | inr e ↦ e
]

-- Once the session has another hash, no live session has the old one.
replaced :
    (h g : Text) (now expires : ℕ) (xs : List AuthSession) (id : ℕ)
    → g ≢ h
    → All (λ y. (y.refresh_token_hash ≢ h) ⊎ (y.id ≡ id)) xs
    → (later : ℕ)
    → find (is_current h later) (update_where (is_live_session id) (set_refresh g expires) xs)
      ≡ none
replaced h g now expires xs id n a later = find-none (is_current h later) _ (
    All-update_where (λ y. (y.refresh_token_hash ≢ h) ⊎ (y.id ≡ id))
      (λ y. is_current h later y ≡ false) (is_live_session id) (set_refresh g expires) xs
      (λ y t p. changed y) (λ y t p. unchanged y t p) a)
  where
    changed : (y : AuthSession) → is_current h later (set_refresh g expires y) ≡ false
    changed y = rw (text_ne g h n) refl

    unchanged :
        (y : AuthSession)
        → is_live_session id y ≡ false
        → (y.refresh_token_hash ≢ h) ⊎ (y.id ≡ id)
        → is_current h later y ≡ false
    unchanged y t (inl m) = rw (text_ne y.refresh_token_hash h m) refl
    unchanged y t (inr e) = ground (arith, t, e)

module _ (c : Crypto) (signing_key : Text) (ttl : ℕ) where
  -- No live session has the token, now or later.
  abbrev Spent : Text → Store → Type 0
  Spent raw s = (later : ℕ) → find (is_current (c.hash_token raw) later) s.auth_sessions ≡ none

  rotated :
      (t raw : Text) (now : ℕ) (x : AuthSession) (s : Store)
      → HasHashes s.auth_sessions
      → c.hash_token t ≢ c.hash_token raw
      → find (is_current (c.hash_token raw) now) s.auth_sessions ≡ some x
      → Alone (update_session_refresh x.id (c.hash_token t) (now + ttl)) s (λ u s'. Spent raw s')
  unfolding update_session_refresh
  rotated t raw now x s d n f = Alone-bind _ _ (
      Alone-constrained _ _ _ λ m. Alone-throw_if _ _ λ z.
        replaced (c.hash_token raw) (c.hash_token t) now (now + ttl) s.auth_sessions x.id n
          (found_alone (c.hash_token raw) now s.auth_sessions x d f))

  issued-Replies :
      (row : AuditLog) (raw t : Text) (o : Option Text) (s : Store)
      → Spent raw s
      → Replies (issued row t o) s (λ b s'. Spent raw s')
  unfolding insert_log
  issued-Replies row raw t none s h = Replies-refusal _ tt
  issued-Replies row raw t (some a) s h =
      let answer : Reply Tokens = success 200 (record { access_token = a; refresh_token = t }) in
      let logged : Store = record s { audit_logs = row ∷ s.audit_logs } in
      Replies-ignoring (add_log row) (reply answer) (Replies-reply _ _ h) (
        Settles-constrained (λ u s'. Replies (reply answer) s' (λ b x. Spent raw x))
          (actor_known row.actor_user_id s) tt logged (λ k. Replies-reply _ _ h))

  first_use :
      (t raw : Text) (now : ℕ) (s : Store)
      → HasHashes s.auth_sessions
      → c.hash_token t ≢ c.hash_token raw
      → Replies (refresh c signing_key ttl (some t) now (some raw)) s (λ b s'. Spent raw s')
  unfolding refresh get_session_by_hash
  first_use t raw now s d n =
      Replies-if (is_none_text signing_key) _ _ (λ k. Replies-refusal _ tt)
        λ k.
          Replies-if (is_none_text (trim_space raw)) _ _ (λ b. Replies-refusal _ tt)
            λ b. Replies-calling _ _ _ session_error-IsRefusal (
              Alone-query _ _ (
                Alone-or_throw _ _ λ x f.
                  Replies-calling _ _ _ (λ e. tt)
                    (Alone-weaken
                      (λ u s' h. issued-Replies _ raw t (c.issue_token x.user_id x.id now) s' h)
                      (rotated t raw now x s d n f))))

  second_use :
      (fresh : Option Text) (raw : Text) (now : ℕ) (s : Store)
      → Spent raw s
      → Replies (refresh c signing_key ttl fresh now (some raw)) s (λ b s'. ⊥)
  unfolding refresh get_session_by_hash
  second_use fresh raw now s h =
      Replies-if (is_none_text signing_key) _ _ (λ k. Replies-refusal _ tt)
        λ k.
          Replies-if (is_none_text (trim_space raw)) _ _ (λ b. Replies-refusal _ tt)
            λ b. Replies-calling _ _ _ session_error-IsRefusal (
              Alone-query _ _ (Alone-or_throw _ _ λ x f. absurd (none-ne-some x (sym (h now) ∙ f))))

  refused : (r : Reply Tokens × Pool) → Replied (λ b s. ⊥) r → IsRefusal r.0
  refused (success n b, p) h = h.1
  refused (refusal n code, p) h = tt

  -- A refresh token is used once: where the sessions have distinct hashes, no other connection writes
  -- in between, and the new token has another hash, then after a refresh that succeeded every refresh
  -- with the old token is refused, at any later time and with any calls of the driver failed.
  pub refresh_once :
      (t raw : Text) (fresh : Option Text) (now later n : ℕ) (b : Tokens) (p p' : Pool)
      → p.others ≡ []
      → HasHashes p.store.auth_sessions
      → c.hash_token t ≢ c.hash_token raw
      → refresh c signing_key ttl (some t) now (some raw) p ≡ (success n b, p')
      → IsRefusal (refresh c signing_key ttl fresh later (some raw) p').0
  refresh_once t raw fresh now later n b p p' o d m e =
      let h =
        subst (Replied (λ b s'. Spent raw s')) e
          ((first_use t raw now p.store d m).apply p refl o) in
      refused (refresh c signing_key ttl fresh later (some raw) p')
        ((second_use fresh raw later p'.store h.1).apply p' refl h.0)
