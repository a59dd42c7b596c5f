-- ===== src/Audit/Query.antt =====
-- `SanitizeURL` of internal/logredact/logredact.go. What `url.ParseQuery` makes of a query is an argument:
-- an error, or the keys with their values.
use consulting_revenue_platf.Prelude.{
  ◌≡◌, refl, sym, ◌∙◌, ◌⊎◌, inl, inr, Bool, true, ◌||◌, Option, none, some, List, [], ◌∷◌, map, All,
  Bool-cases, if◌then◌else◌,
}
use consulting_revenue_platf.Prelude.Text.{Text, codes, trim_space, to_lower}
use consulting_revenue_platf.Prelude.Search.{contains}
use consulting_revenue_platf.Audit.Metadata.{any_equal, lowered}
use consulting_revenue_platf.Audit.Redacted.{
  OneOf, Contains, contains_complete, contains_found, equal_complete, equal_found, true-ne-false,
  any_of, which,
}

-- `sensitiveQueryKeys`.
abbrev pub sensitive_query_keys : List Text
sensitive_query_keys =
    codes "password"
    ∷ codes "passwd"
    ∷ codes "pwd"
    ∷ codes "token"
    ∷ codes "access_token"
    ∷ codes "refresh_token"
    ∷ codes "secret"
    ∷ codes "api_key"
    ∷ codes "apikey"
    ∷ codes "authorization"
    ∷ codes "stripe-signature"
    ∷ codes "signature"
    ∷ []

-- `isSensitiveKey`.
unfoldable pub is_sensitive_key : Text → Bool
unfolding trim_space to_lower contains
is_sensitive_key key =
    let k = lowered key in
    any_equal sensitive_query_keys k
    || contains (codes "password") k
    || contains (codes "secret") k
    || contains (codes "token") k

abbrev pub mask : Text
mask = codes "[redacted]"

abbrev pub redact_values : Text × List Text → Text × List Text
redact_values (k, vs) = (k, if is_sensitive_key k then map (λ v. mask) vs else vs)

-- The query of a log line: none, one that cannot be parsed, or the parameters that are encoded.
pub data LoggedQuery : Type 0 where
  no_query unparsed_query : LoggedQuery
  parameters : List (Text × List Text) → LoggedQuery

abbrev pub logged : Option (List (Text × List Text)) → LoggedQuery
logged none = unparsed_query
logged (some q) = parameters (map redact_values q)

-- `SanitizeURL`, by the path and the raw query.
unfoldable pub sanitize_url :
    (Text → Option (List (Text × List Text))) → Text → Text → Text × LoggedQuery
sanitize_url parse_query path [] = (path, no_query)
sanitize_url parse_query path (c ∷ q) = (path, logged (parse_query (c ∷ q)))

abbrev IsSecretParameter : Text → Type 0
IsSecretParameter t =
    OneOf (λ s k. k ≡ s) sensitive_query_keys t
    ⊎ Contains (codes "password") t
    ⊎ Contains (codes "secret") t
    ⊎ Contains (codes "token") t

-- A key of a parameter whose values must not be logged, whatever its case and the space around it.
abbrev pub NamesSecretParameter : Text → Type 0
NamesSecretParameter k = IsSecretParameter (lowered k)

-- The key is logged; the values too, unless the key names a secret: then each is the mask.
abbrev pub Sanitized : Text × List Text → Text × List Text → Type 0
Sanitized (k, vs) (k', vs') =
    (k' ≡ k)
    × (NamesSecretParameter k × All (λ v. v ≡ mask) vs' ⊎ (¬ NamesSecretParameter k) × (vs' ≡ vs))

abbrev pub AllSanitized : List (Text × List Text) → List (Text × List Text) → Type 0
AllSanitized [] [] = Unit
AllSanitized [] (y ∷ ys) = ⊥
AllSanitized (x ∷ xs) [] = ⊥
AllSanitized (x ∷ xs) (y ∷ ys) = Sanitized x y × AllSanitized xs ys

sensitive_complete : (k : Text) → NamesSecretParameter k → is_sensitive_key k ≡ true
unfolding is_sensitive_key
sensitive_complete k h =
    any_of (any_equal sensitive_query_keys (lowered k)) (contains (codes "password") (lowered k))
      (contains (codes "secret") (lowered k)) (contains (codes "token") (lowered k)) (found h)
  where
    found :
        NamesSecretParameter k
        → (any_equal sensitive_query_keys (lowered k) ≡ true)
          ⊎ (contains (codes "password") (lowered k) ≡ true)
          ⊎ (contains (codes "secret") (lowered k) ≡ true)
          ⊎ (contains (codes "token") (lowered k) ≡ true)
    found (inl h) = inl (equal_complete sensitive_query_keys (lowered k) h)
    found (inr (inl h)) = inr (inl (contains_complete (codes "password") (lowered k) h))
    found (inr (inr (inl h))) = inr (inr (inl (contains_complete (codes "secret") (lowered k) h)))
    found (inr (inr (inr h))) = inr (inr (inr (contains_complete (codes "token") (lowered k) h)))

sensitive_found : (k : Text) → is_sensitive_key k ≡ true → NamesSecretParameter k
unfolding is_sensitive_key
sensitive_found k h = named (
    which (any_equal sensitive_query_keys (lowered k)) (contains (codes "password") (lowered k))
      (contains (codes "secret") (lowered k)) (contains (codes "token") (lowered k)) h)
  where
    named :
        (any_equal sensitive_query_keys (lowered k) ≡ true)
          ⊎ (contains (codes "password") (lowered k) ≡ true)
          ⊎ (contains (codes "secret") (lowered k) ≡ true)
          ⊎ (contains (codes "token") (lowered k) ≡ true)
        → NamesSecretParameter k
    named (inl p) = inl (equal_found sensitive_query_keys (lowered k) p)
    named (inr (inl p)) = inr (inl (contains_found (codes "password") (lowered k) p))
    named (inr (inr (inl p))) = inr (inr (inl (contains_found (codes "secret") (lowered k) p)))
    named (inr (inr (inr p))) = inr (inr (inr (contains_found (codes "token") (lowered k) p)))

All-masked : (vs : List Text) → All (λ v. v ≡ mask) (map (λ (v : Text). mask) vs)
All-masked [] = tt
All-masked (v ∷ vs) = (refl, All-masked vs)

redact_values-Sanitized : (x : Text × List Text) → Sanitized x (redact_values x)
redact_values-Sanitized (k, vs) = elim (Bool-cases (is_sensitive_key k)) [
  | inl t ↦ rw t (refl, inl (sensitive_found k t, All-masked vs))
  | inr t ↦ rw t (refl, inr (λ n. true-ne-false (sym (sensitive_complete k n) ∙ t), refl))
]

all_sanitized : (q : List (Text × List Text)) → AllSanitized q (map redact_values q)
all_sanitized [] = tt
all_sanitized (x ∷ q) = (redact_values-Sanitized x, all_sanitized q)

-- What may be logged of a query that parses to `o`.
abbrev pub Logs : Text → Option (List (Text × List Text)) → LoggedQuery → Type 0
Logs [] o l = l ≡ no_query
Logs (c ∷ s) none l = l ≡ unparsed_query
Logs (c ∷ s) (some q) l = (q' : List (Text × List Text)) × (l ≡ parameters q') × AllSanitized q q'

-- What is logged of a URL: the path; of its query, nothing if there is none or it cannot be parsed, and
-- else every parameter with its key, its values masked exactly if the key names a secret (whatever
-- its case and the space around it).
pub sanitize_url-Logs :
    (parse_query : Text → Option (List (Text × List Text))) (path query : Text)
    → ((sanitize_url parse_query path query).0 ≡ path)
      × Logs query (parse_query query) (sanitize_url parse_query path query).1
unfolding sanitize_url
sanitize_url-Logs parse_query path [] = (refl, refl)
sanitize_url-Logs parse_query path (c ∷ s) = (refl, logs (parse_query (c ∷ s)))
  where
    logs : (o : Option (List (Text × List Text))) → Logs (c ∷ s) o (logged o)
    logs none = refl
    logs (some q) = (map redact_values q, refl, all_sanitized q)
