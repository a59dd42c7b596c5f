-- ===== src/Catalog/Routes.antt =====
-- The handlers of internal/httpapi/handlers_clients.go, after the middleware.
use consulting_revenue_platf.Prelude.{ℕ, Bool, ◌&&◌, not, Option, List, [], ◌∷◌, if◌then◌else◌}
use consulting_revenue_platf.Prelude.Text.{Text, codes, trim_space}
use consulting_revenue_platf.Store.{
  Client, Error, name_required, billing_email_required, unsupported_currency, client_not_found,
}
use consulting_revenue_platf.Membership.Roles.{role_allows, client_write}
use consulting_revenue_platf.Auth.Reply.{
  Reply, success, Handler, reply, calling, invalid, forbidden, internal,
}
use consulting_revenue_platf.Auth.Tenant.{Principal}
use consulting_revenue_platf.Audit.Metadata.{any_equal}
use consulting_revenue_platf.TimeEntry.Routes.{parsed, not_found}
use consulting_revenue_platf.Catalog.Clients.{
  is_some, create_client, get_client, update_client, soft_delete_client, list_clients,
}

-- `createClientRequest` and `patchClientRequest`.
pub record CreateClientRequest : Type 0 where
  pub name : Text
  pub billing_email : Text
  pub currency_preference : Text

pub record PatchClientRequest : Type 0 where
  pub name : Option Text
  pub billing_email : Option Text
  pub currency_preference : Option Text

-- What `strconv.ParseBool` reads as true; all else is false, as its error is dropped.
abbrev pub true_texts : List Text
true_texts = codes "1" ∷ codes "t" ∷ codes "T" ∷ codes "TRUE" ∷ codes "true" ∷ codes "True" ∷ []

abbrev pub parse_bool : Text → Bool
parse_bool = any_equal true_texts

-- `handleListClients`, by its query parameter.
unfoldable pub handle_list_clients : Principal → Text → Handler (List Client)
unfolding list_clients role_allows trim_space
handle_list_clients p raw =
    let include_deleted = parse_bool (trim_space raw) in
    if include_deleted && not (role_allows p.role client_write)
    then reply forbidden
    else calling (list_clients p.organization_id include_deleted) (λ e. internal)
        (λ cs. reply (success 200 cs))

module _ {B : Type 0} where
  abbrev pub on_create_client_error : Error → Reply B
  on_create_client_error name_required = invalid
  on_create_client_error billing_email_required = invalid
  on_create_client_error unsupported_currency = invalid
  on_create_client_error e = internal

  abbrev pub on_client_error : Error → Reply B
  on_client_error client_not_found = not_found
  on_client_error e = internal

  abbrev pub on_patch_client_error : Error → Reply B
  on_patch_client_error client_not_found = not_found
  on_patch_client_error e = on_create_client_error e

-- `handleCreateClient`, with the id that the database makes.
unfoldable pub handle_create_client : ℕ → ℕ → Principal → Option CreateClientRequest → Handler ℕ
unfolding create_client
handle_create_client new_id now p body = parsed body λ r.
    calling
      (create_client new_id p.organization_id r.name r.billing_email r.currency_preference now)
      on_create_client_error (λ id. reply (success 201 id))

module _ (parse_uuid : Text → Option ℕ) where
  -- `handleGetClient`, by the id of the path.
  unfoldable pub handle_get_client : Principal → Text → Handler Client
  unfolding get_client trim_space
  handle_get_client p raw_id =
      parsed (parse_uuid (trim_space raw_id))
        λ id. calling (get_client p.organization_id id) on_client_error (λ c. reply (success 200 c))

  -- `handlePatchClient`.
  unfoldable pub handle_patch_client :
      ℕ → Principal → Text → Option PatchClientRequest → Handler (Unit {0})
  unfolding update_client trim_space
  handle_patch_client now p raw_id body = parsed (parse_uuid (trim_space raw_id)) λ id.
      parsed body λ r.
        if not (is_some r.name)
          && not (is_some r.billing_email)
          && not (is_some r.currency_preference)
        then reply invalid
        else calling
            (update_client p.organization_id id r.name r.billing_email r.currency_preference now)
            on_patch_client_error (λ u. reply (success 204 tt))

  -- `handleDeleteClient`.
  unfoldable pub handle_delete_client : ℕ → Principal → Text → Handler (Unit {0})
  unfolding soft_delete_client trim_space
  handle_delete_client now p raw_id = parsed (parse_uuid (trim_space raw_id)) λ id.
      calling (soft_delete_client p.organization_id id now) on_client_error
        (λ u. reply (success 204 tt))
