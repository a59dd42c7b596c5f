-- ===== src/TimeEntry/Routes.antt =====
-- The handlers of internal/httpapi/handlers_time_entries.go, after the middleware. A body or a query is
-- given as it is decoded; how a date is parsed is an argument.
use consulting_revenue_platf.Prelude.{
  ℕ, Bool, true, false, ◌&&◌, ◌||◌, not, Option, none, some, List, [], ◌∷◌, ◌==◌, if◌then◌else◌,
  find,
}
use consulting_revenue_platf.Prelude.Int.{ℤ, pos, ltb_ℤ}
use consulting_revenue_platf.Prelude.Text.{Text, codes, text_eq, trim_space}
use consulting_revenue_platf.Money.Decimal.{parse_int}
use consulting_revenue_platf.Store.{
  TimeEntryStatus, TimeEntry, Error, time_entry_not_found, time_entry_locked, minutes_out_of_range,
  negative_rate, project_archived, project_not_found,
}
use consulting_revenue_platf.Store.Pool.{Op, query, or_throw, on_pool, ◌>>=◌}
use consulting_revenue_platf.Membership.Roles.{contractor_text}
use consulting_revenue_platf.Auth.Reply.{
  Reply, success, refusal, Handler, reply, calling, invalid, forbidden, internal,
}
use consulting_revenue_platf.Auth.Tenant.{Principal}
use consulting_revenue_platf.TimeEntry.Transition.{is_entry, same_status}
use consulting_revenue_platf.TimeEntry.Page.{Cursor, list_time_entries_page}
use consulting_revenue_platf.TimeEntry.Edit.{create_time_entry, update_time_entry}

abbrev pub is_contractor : Principal → Bool
is_contractor p = text_eq p.role contractor_text

abbrev pub conflict : {B : Type 0} → Reply B
conflict = refusal 409 (codes "conflict")

abbrev pub not_found : {B : Type 0} → Reply B
not_found = refusal 404 (codes "not_found")

-- A trimmed query value: left out where it is empty.
abbrev pub non_empty : Text → Option Text
non_empty [] = none
non_empty (ch ∷ s) = some (ch ∷ s)

unfoldable pub given : Text → Option Text
unfolding trim_space
given s = non_empty (trim_space s)

-- The query of the listing, each value empty where it is absent.
pub record ListQuery : Type 0 where
  pub project_id : Text
  pub user_id : Text
  pub status : Text
  pub from_date : Text
  pub to_date : Text
  pub limit : Text
  pub cursor : Text

-- `createTimeEntryRequest` and `patchTimeEntryRequest`.
pub record CreateRequest : Type 0 where
  pub project_id : Text
  pub user_id : Option Text
  pub work_date : Text
  pub minutes : ℤ
  pub hourly_rate_minor : ℤ
  pub notes : Option Text

pub record PatchRequest : Type 0 where
  pub project_id : Option Text
  pub work_date : Option Text
  pub minutes : Option ℤ
  pub hourly_rate_minor : Option ℤ
  pub notes : Option Text

-- `strings.Split(raw, "|")`.
abbrev pub cut : ℕ → List Text → List Text
cut ch [] = (ch ∷ []) ∷ []
cut ch (w ∷ ws) = if ch == b'|' then [] ∷ w ∷ ws else (ch ∷ w) ∷ ws

abbrev pub split_bar : Text → List Text
split_bar [] = [] ∷ []
split_bar (ch ∷ s) = cut ch (split_bar s)

-- A value that must parse, and one that may be left out.
module _ {A B : Type 0} where
  abbrev pub parsed : Option A → (A → Handler B) → Handler B
  parsed none k = reply invalid
  parsed (some a) k = k a

  abbrev pub parsed_if_given : (Text → Option A) → Option Text → (Option A → Handler B) → Handler B
  parsed_if_given parse none k = k none
  parsed_if_given parse (some s) k = parsed (parse s) (λ a. k (some a))

module _ (parse_uuid : Text → Option ℕ) (parse_date : Text → Option ℕ) where
  abbrev pub cursor_parts : Option ℕ → Option ℕ → Option (Option Cursor)
  cursor_parts none id = none
  cursor_parts (some day) none = none
  cursor_parts (some day) (some id) = some (some (record { work_date = day; id = id }))

  abbrev pub cursor_of_parts : List Text → Option (Option Cursor)
  cursor_of_parts [] = none
  cursor_of_parts (d ∷ []) = none
  cursor_of_parts (d ∷ i ∷ []) = cursor_parts (parse_date d) (parse_uuid i)
  cursor_of_parts (d ∷ i ∷ x ∷ xs) = none

  abbrev pub cursor_if_given : Option Text → Option (Option Cursor)
  cursor_if_given none = some none
  cursor_if_given (some raw) = cursor_of_parts (split_bar raw)

  -- `decodeTimeEntryCursor`: an error, or a cursor if one is given.
  unfoldable pub decode_cursor : Text → Option (Option Cursor)
  unfolding given
  decode_cursor raw = cursor_if_given (given raw)

  -- The limit of a page: 50 if none is given, 200 at the most.
  abbrev pub positive_limit : Option ℤ → Option ℤ
  positive_limit none = none
  positive_limit (some n) =
      if ltb_ℤ (pos 0) n then some (if ltb_ℤ (pos 200) n then pos 200 else n) else none

  abbrev pub limit_of : Option Text → Option ℤ
  limit_of none = some (pos 50)
  limit_of (some s) = positive_limit (parse_int s)

  -- The user whose entries are listed: a contractor's own, whatever is asked for.
  abbrev pub own_if_contractor : Principal → Option ℕ
  own_if_contractor p = if is_contractor p then some p.user_id else none

  module _ {B : Type 0} where
    abbrev pub listed_user : Principal → Option Text → (Option ℕ → Handler B) → Handler B
    listed_user p none k = k (own_if_contractor p)
    listed_user p (some s) k =
        parsed (parse_uuid s)
          (λ id. if is_contractor p && not (id == p.user_id) then reply forbidden else k (some id))

  -- `handleListTimeEntries`.
  unfoldable pub handle_list : Principal → ListQuery → Handler (List TimeEntry × Option Cursor)
  unfolding given decode_cursor parse_int list_time_entries_page
  handle_list p q = parsed_if_given parse_uuid (given q.project_id) λ project.
      listed_user p (given q.user_id) λ user. parsed_if_given parse_date (given q.from_date) λ from.
        parsed_if_given parse_date (given q.to_date) λ to.
          parsed (limit_of (given q.limit)) λ limit. parsed (decode_cursor q.cursor) λ cursor.
            calling
              (on_pool (
                list_time_entries_page p.organization_id
                  (record {
                    project_id = project;
                    user_id = user;
                    status = given q.status;
                    from_date = from;
                    to_date = to;
                  })
                  cursor limit))
              (λ e. internal) (λ page. reply (success 200 page))

  module _ {B : Type 0} where
    -- The user that an entry is created for.
    abbrev pub target_user : Principal → Option Text → (ℕ → Handler B) → Handler B
    target_user p none k = k p.user_id
    target_user p (some s) k =
        parsed (parse_uuid s)
          (λ id. if is_contractor p && not (id == p.user_id) then reply forbidden else k id)

    -- The errors of creating and patching.
    abbrev pub on_edit_error : Error → Reply B
    on_edit_error minutes_out_of_range = invalid
    on_edit_error negative_rate = invalid
    on_edit_error project_archived = invalid
    on_edit_error project_not_found = invalid
    on_edit_error e = internal

    abbrev pub on_patch_error : Error → Reply B
    on_patch_error time_entry_locked = conflict
    on_patch_error time_entry_not_found = not_found
    on_patch_error e = on_edit_error e

    abbrev pub on_load_error : Error → Reply B
    on_load_error time_entry_not_found = not_found
    on_load_error e = internal

  abbrev pub given_if_some : Option Text → Option Text
  given_if_some none = none
  given_if_some (some s) = given s

  -- `handleCreateTimeEntry`, with the id that the database makes.
  unfoldable pub handle_create : ℕ → ℕ → Principal → Option CreateRequest → Handler ℕ
  unfolding given create_time_entry
  handle_create new_id now p body = parsed body λ r.
      parsed (parse_uuid (trim_space r.project_id)) λ project.
        parsed (parse_date (trim_space r.work_date)) λ day.
          target_user p (given_if_some r.user_id) λ user.
            calling
              (create_time_entry new_id p.organization_id project user day r.minutes
                r.hourly_rate_minor r.notes now)
              on_edit_error (λ id. reply (success 201 id))

  abbrev pub is_nothing {ℓ} : {A : Type ℓ} → Option A → Bool
  is_nothing none = true
  is_nothing (some a) = false

  abbrev pub is_empty_patch : PatchRequest → Bool
  is_empty_patch r =
      is_nothing r.project_id
      && is_nothing r.work_date
      && is_nothing r.minutes
      && is_nothing r.hourly_rate_minor
      && is_nothing r.notes

  -- `repo.GetTimeEntry`.
  unfoldable pub load_entry : ℕ → ℕ → Op TimeEntry
  load_entry org id = query (λ s. find (is_entry org id) s.time_entries) >>= λ row.
      or_throw row time_entry_not_found

  -- What a contractor may edit.
  abbrev pub may_edit : Principal → TimeEntry → Bool
  may_edit p e =
      not (is_contractor p) || e.user_id == p.user_id && same_status e.status TimeEntryStatus.draft

  abbrev pub patch_with : ℕ → Principal → ℕ → PatchRequest → Handler (Unit {0})
  patch_with now p id r =
      if is_empty_patch r
      then reply invalid
      else parsed_if_given (λ s. parse_uuid (trim_space s)) r.project_id
          λ project.
            parsed_if_given (λ s. parse_date (trim_space s)) r.work_date
              λ day.
                calling
                  (update_time_entry p.organization_id id
                    (record {
                      project_id = project;
                      work_date = day;
                      minutes = r.minutes;
                      hourly_rate_minor = r.hourly_rate_minor;
                      notes = r.notes;
                    })
                    now)
                  on_patch_error (λ u. reply (success 204 tt))

  -- `handlePatchTimeEntry`, by the id of the path.
  unfoldable pub handle_patch : ℕ → Principal → Text → Option PatchRequest → Handler (Unit {0})
  unfolding load_entry update_time_entry trim_space
  handle_patch now p raw_id body = parsed (parse_uuid (trim_space raw_id)) λ id.
      calling (load_entry p.organization_id id) on_load_error
        λ e. if may_edit p e then parsed body (patch_with now p id) else reply forbidden
