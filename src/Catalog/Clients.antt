-- ===== src/Catalog/Clients.antt =====
-- internal/repo/clients.go: creating, reading, patching and deleting clients, as statements on the pool.
-- The id of a new row is an argument. The CHECKs of the table are left out, as the code tests the
-- values itself.
use consulting_revenue_platf.Prelude.{
  ℕ, Bool, true, false, ◌&&◌, ◌||◌, not, Option, none, some, List, [], ◌∷◌, ◌==◌, if◌then◌else◌,
  find, select, ltb, leb, count_where, update_where,
}
use consulting_revenue_platf.Prelude.Text.{Text, trim_space, to_lower, to_upper}
use consulting_revenue_platf.Store.{
  Organization, Client, Store, Error, Result, ok, err, name_required, billing_email_required,
  client_not_found,
}
use consulting_revenue_platf.Store.Pool.{
  Op, constrained, statement, query, or_throw, lift, throw_if, ◌>>=◌,
}
use consulting_revenue_platf.Money.Currency.{usd, normalize_currency}

-- `NormalizeBillingEmail`.
unfoldable pub normalize_billing_email : Text → Text
unfolding trim_space to_lower
normalize_billing_email s = trim_space (to_lower s)

-- A text, or the error for one that is empty.
abbrev pub not_empty : Error → Text → Result Text
not_empty e [] = err e
not_empty e (ch ∷ s) = ok (ch ∷ s)

abbrev pub currency_or_usd : Text → Text
currency_or_usd [] = usd
currency_or_usd (ch ∷ s) = ch ∷ s

abbrev pub is_some {ℓ} : {A : Type ℓ} → Option A → Bool
is_some none = false
is_some (some a) = true

abbrev pub client_id_taken : ℕ → List Client → Bool
client_id_taken id [] = false
client_id_taken id (c ∷ cs) = c.id == id || client_id_taken id cs

abbrev pub new_client : ℕ → ℕ → Text → Text → Text → ℕ → Client
new_client id org name email currency now = record {
  id = id;
  organization_id = org;
  name = name;
  billing_email = email;
  currency_preference = currency;
  deleted_at = none;
  created_at = now;
  updated_at = now;
}

-- The primary key, and the foreign key to organizations.
abbrev pub insert_client : Client → Store → Result (ℕ × Store)
insert_client c s =
    constrained
      (not (client_id_taken c.id s.clients)
        && is_some (find (λ (o : Organization). o.id == c.organization_id) s.organizations))
      c.id (record s { clients = c ∷ s.clients })

-- `CreateClient`.
unfoldable pub create_client : ℕ → ℕ → Text → Text → Text → ℕ → Op ℕ
unfolding normalize_billing_email normalize_currency trim_space to_upper
create_client id org name email currency now = do
  n ← lift (not_empty name_required (trim_space name))
  m ← lift (not_empty billing_email_required (normalize_billing_email email))
  c ← lift (normalize_currency (currency_or_usd (trim_space currency)))
  statement (insert_client (new_client id org n m c now))

-- `deleted_at IS NULL`.
abbrev pub is_kept : Option ℕ → Bool
is_kept none = true
is_kept (some t) = false

-- `WHERE id = $1 AND organization_id = $2 AND deleted_at IS NULL`, and without its last condition.
abbrev pub is_any_client : ℕ → ℕ → Client → Bool
is_any_client org id c = c.id == id && c.organization_id == org

abbrev pub is_client : ℕ → ℕ → Client → Bool
is_client org id c = is_any_client org id c && is_kept c.deleted_at

-- `GetClient` and `GetClientIncludingDeleted`.
unfoldable pub get_client : ℕ → ℕ → Op Client
get_client org id =
    query (λ s. find (is_client org id) s.clients) >>= λ row. or_throw row client_not_found

unfoldable pub get_client_including_deleted : ℕ → ℕ → Op Client
get_client_including_deleted org id =
    query (λ s. find (is_any_client org id) s.clients) >>= λ row. or_throw row client_not_found

-- The value of a column: what was read, or what the patch gives, if that is accepted.
abbrev pub column : (Text → Result Text) → Option Text → Text → Result Text
column check none old = ok old
column check (some s) old = check s

abbrev pub set_client : Text → Text → Text → ℕ → Client → Client
set_client name email currency now c = record c {
  name = name;
  billing_email = email;
  currency_preference = currency;
  updated_at = now;
}

abbrev pub update_clients : ℕ → ℕ → (Client → Client) → Store → Result (ℕ × Store)
update_clients org id f s =
    constrained true (count_where (is_client org id) s.clients)
      (record s { clients = update_where (is_client org id) f s.clients })

-- `UpdateClient`.
unfoldable pub update_client : ℕ → ℕ → Option Text → Option Text → Option Text → ℕ → Op (Unit {0})
unfolding get_client normalize_billing_email normalize_currency trim_space
update_client org id name email currency now = do
  c ← get_client org id
  n ← lift (column (λ s. not_empty name_required (trim_space s)) name c.name)
  m ← lift (
      column (λ s. not_empty billing_email_required (normalize_billing_email s)) email
        c.billing_email)
  cur ← lift (column normalize_currency currency c.currency_preference)
  k ← statement (update_clients org id (set_client n m cur now))
  throw_if (k == 0) client_not_found

abbrev pub delete_client : ℕ → Client → Client
delete_client now c = record c { deleted_at = some now; updated_at = now }

-- `SoftDeleteClient`.
unfoldable pub soft_delete_client : ℕ → ℕ → ℕ → Op (Unit {0})
soft_delete_client org id now = do
  k ← statement (update_clients org id (delete_client now))
  throw_if (k == 0) client_not_found

-- `ORDER BY created_at ASC, id ASC`.
abbrev pub is_sooner : Client → Client → Bool
is_sooner a b = ltb a.created_at b.created_at || a.created_at == b.created_at && leb a.id b.id

abbrev pub insert_by_creation : Client → List Client → List Client
insert_by_creation c [] = c ∷ []
insert_by_creation c (x ∷ xs) =
    let rest = insert_by_creation c xs in if is_sooner c x then c ∷ x ∷ xs else x ∷ rest

abbrev pub order_clients : List Client → List Client
order_clients [] = []
order_clients (c ∷ cs) = insert_by_creation c (order_clients cs)

abbrev pub is_shown : ℕ → Bool → Client → Bool
is_shown org include_deleted c =
    c.organization_id == org && (include_deleted || is_kept c.deleted_at)

-- `ListClients`.
unfoldable pub list_clients : ℕ → Bool → Op (List Client)
list_clients org include_deleted =
    query (λ s. order_clients (select (is_shown org include_deleted) s.clients))
