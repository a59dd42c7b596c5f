-- ===== src/Scenarios/Requests.antt =====
-- Runs of the routes that list and patch time entries.
use consulting_revenue_platf.Prelude.{ℕ, ◌≡◌, refl, Option, none, some, List, [], ◌∷◌, ◌-◌, All}
use consulting_revenue_platf.Prelude.Int.{pos}
use consulting_revenue_platf.Prelude.Text.{Text, codes, trim_space}
use consulting_revenue_platf.Prelude.Search.{has_prefix}
use consulting_revenue_platf.Store.{TimeEntryStatus, TimeEntry, tx_steps}
use consulting_revenue_platf.Store.Pool.{Pool, pool_steps}
use consulting_revenue_platf.Invoice.Generate.{order_entries}
use consulting_revenue_platf.Membership.Roles.{role_allows, time_entry_read, time_entry_write}
use consulting_revenue_platf.Money.Decimal.{parse_nat, parse_int}
use consulting_revenue_platf.Auth.Reply.{success, forbidden, reply, calling}
use consulting_revenue_platf.Auth.Handlers.{bearer_token}
use consulting_revenue_platf.Auth.Tenant.{
  Principal, get_active_role, require_tenant_auth, require_role, route,
}
use consulting_revenue_platf.Auth.Admitted.{Admitted}
use consulting_revenue_platf.TimeEntry.Page.{Cursor, is_listed, page_limit, list_time_entries_page}
use consulting_revenue_platf.TimeEntry.Edit.{validate_project, create_time_entry, update_time_entry}
use consulting_revenue_platf.TimeEntry.Routes.{
  ListQuery, PatchRequest, given, decode_cursor, handle_list, load_entry, handle_create,
  handle_patch,
}
use consulting_revenue_platf.TimeEntry.Scoped.{Visible, list_route-IsScoped}
use consulting_revenue_platf.TimeEntry.PatchRoute.{PatchedEntry, patch_route-IsScoped}
use consulting_revenue_platf.Scenarios.Entries.{entry}
use consulting_revenue_platf.Scenarios.Sessions.{sample_uuid, sample_crypto}
use consulting_revenue_platf.Scenarios.Editing.{three_entries, three_pool}

-- Routes: the user is a contractor of organization 1.
abbrev sample_date : Text → Option ℕ
sample_date [] = none
sample_date (ch ∷ s) = some (ch - b'0')

abbrev key : Text
key = codes "key"

abbrev first_page : ListQuery
first_page = record {
  project_id = [];
  user_id = [];
  status = [];
  from_date = codes " 1";
  to_date = [];
  limit = codes "1";
  cursor = [];
}

abbrev shown : List TimeEntry × Option Cursor
shown = (entry 1 TimeEntryStatus.approved ∷ [], some (record { work_date = 100; id = 1 }))

-- What a run of these routes computes with.
route_steps : Unit {0}
unfolding pool_steps reply calling validate_project create_time_entry update_time_entry given
    decode_cursor handle_list load_entry handle_create handle_patch list_time_entries_page
    page_limit is_listed order_entries tx_steps parse_nat parse_int trim_space has_prefix
    bearer_token get_active_role require_tenant_auth require_role route role_allows
route_steps = tt

shows :
    route sample_crypto key 3 time_entry_read
      (λ u. handle_list sample_uuid sample_date u first_page)
      (codes "Bearer 58")
      (codes "1")
      three_pool
    ≡ (
      success 200 shown,
      (route sample_crypto key 3 time_entry_read
          (λ u. handle_list sample_uuid sample_date u first_page)
          (codes "Bearer 58")
          (codes "1")
          three_pool).1,
    )
unfolding route_steps
shows = refl

list_route-IsScoped_example :
    (u : Principal) × Admitted sample_crypto 3
      (codes "Bearer 58")
      (codes "1")
      time_entry_read
      three_entries
      u
    × ((route sample_crypto key 3 time_entry_read
          (λ u. handle_list sample_uuid sample_date u first_page)
          (codes "Bearer 58")
          (codes "1")
          three_pool).1.store
        ≡ three_entries)
    × All (Visible u) shown.0
list_route-IsScoped_example =
    list_route-IsScoped sample_uuid sample_date first_page three_entries sample_crypto key 3 200
      (codes "Bearer 58") (codes "1") three_pool
      (route sample_crypto key 3 time_entry_read
        (λ u. handle_list sample_uuid sample_date u first_page) (codes "Bearer 58") (codes "1")
        three_pool).1
      shown refl refl shows

abbrev new_minutes : PatchRequest
new_minutes = record {
  project_id = none;
  work_date = some (codes "5");
  minutes = some (pos 45);
  hourly_rate_minor = none;
  notes = none;
}

abbrev patched_pool : Pool
patched_pool =
    (route sample_crypto key 3 time_entry_write
      (λ u. handle_patch sample_uuid sample_date 9 u (codes "2") (some new_minutes))
      (codes "Bearer 58") (codes "1") three_pool).1

replies :
    route sample_crypto key 9 time_entry_write
      (λ u. handle_patch sample_uuid sample_date 9 u (codes "2") (some new_minutes))
      (codes "Bearer 58")
      (codes "1")
      three_pool
    ≡ (success 204 tt, patched_pool)
unfolding route_steps
replies = refl

patch_route-IsScoped_example :
    (u : Principal) × Admitted sample_crypto 9
      (codes "Bearer 58")
      (codes "1")
      time_entry_write
      three_entries
      u
    × PatchedEntry sample_uuid sample_date (codes "2") three_entries u patched_pool.store
patch_route-IsScoped_example =
    patch_route-IsScoped sample_uuid sample_date sample_crypto key 9 204 (codes "Bearer 58")
      (codes "1") (codes "2") (some new_minutes) three_pool patched_pool refl replies

-- Another's entry is not for a contractor to patch.
refuses_other :
    (route sample_crypto key 9 time_entry_write
      (λ u. handle_patch sample_uuid sample_date 9 u (codes "3") (some new_minutes))
      (codes "Bearer 58")
      (codes "1")
      three_pool).0
    ≡ forbidden
unfolding route_steps
refuses_other = refl
