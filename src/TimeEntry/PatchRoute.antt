-- ===== src/TimeEntry/PatchRoute.antt =====
-- What the route that patches an entry may change.
use mathlib.Core.Path.{subst}
use consulting_revenue_platf.Prelude.{
  ℕ, ◌≡◌, refl, sym, ◌⊎◌, inl, inr, Bool, true, false, Option, none, some, [], ◌==◌, find, arith,
}
use consulting_revenue_platf.Prelude.Int.{pos, ltb_ℤ}
use consulting_revenue_platf.Prelude.Text.{Text, trim_space}
use consulting_revenue_platf.Store.{
  TimeEntryStatus, TimeEntry, Store, Error, time_entry_not_found, time_entry_locked,
  minutes_out_of_range, negative_rate, project_archived, project_not_found,
}
use consulting_revenue_platf.Store.Pool.{Pool, Op, statement, throw_if, ◌>>=◌, ◌>>◌}
use consulting_revenue_platf.Store.Alone.{
  Alone, Alone-bind, Alone-query, Alone-or_throw, Alone-throw_if, Alone-pure, Alone-constrained,
  Alone-weaken,
}
use consulting_revenue_platf.Auth.Reply.{success}
use consulting_revenue_platf.Auth.Success.{
  Replied, Replies, IsRefusal, Replies-refusal, Replies-reply, Replies-calling, Replies-if,
}
use consulting_revenue_platf.Auth.Handlers.{Crypto}
use consulting_revenue_platf.Auth.Tenant.{Principal, route}
use consulting_revenue_platf.Auth.Admitted.{Admitted, route-Replies}
use consulting_revenue_platf.Membership.Roles.{time_entry_write}
use consulting_revenue_platf.TimeEntry.Transition.{is_entry}
use consulting_revenue_platf.TimeEntry.Lifecycle.{same_status_iff}
use consulting_revenue_platf.TimeEntry.Edit.{
  Patch, patched, update_columns, given_bad, out_of_range, validate_project, validate_given,
  update_time_entry,
}
use consulting_revenue_platf.TimeEntry.Edited.{Edits, updated_rows}
use consulting_revenue_platf.TimeEntry.Routes.{
  PatchRequest, is_contractor, is_empty_patch, load_entry, may_edit, on_load_error, on_edit_error,
  on_patch_error, handle_patch,
}
use consulting_revenue_platf.TimeEntry.Scoped.{Replies-parsed, Replies-if_given}

module _ (org : ℕ) where
  validate-Alone : (s : Store) (i : ℕ) → Alone (validate_project org i) s (λ u s'. s' ≡ s)
  unfolding validate_project
  validate-Alone s i =
      Alone-query _ _ (Alone-bind _ _ (Alone-or_throw _ _ (λ p e. Alone-throw_if _ _ (λ t. refl))))

  validate_given-Alone :
      (s : Store) (o : Option ℕ) → Alone (validate_given org o) s (λ u s'. s' ≡ s)
  validate_given-Alone s none = Alone-pure tt refl
  validate_given-Alone s (some i) = validate-Alone s i

  -- The patch itself.
  update-Alone :
      (id : ℕ) (f : Patch) (now : ℕ) (s : Store)
      → Alone (update_time_entry org id f now) s (λ u s'. Edits org id s s')
  unfolding update_time_entry
  update-Alone id f now s = Alone-query _ _ (
      Alone-bind _ _ (
        Alone-or_throw _ _ λ e found. Alone-bind _ _ (
          Alone-throw_if _ _ λ l. Alone-bind _ _ (
            Alone-weaken
              (λ u s' same.
                subst (λ x. Alone (checked e) x (λ u x'. Edits org id s x')) (sym same)
                  (Alone-bind _ _
                    (Alone-throw_if _ _ λ m. Alone-bind _ _ (Alone-throw_if _ _ λ r. written e))))
              (validate_given-Alone s f.project_id)))))
    where
      checked : TimeEntry → Op (Unit {0})
      checked e =
          throw_if (given_bad out_of_range f.minutes) minutes_out_of_range
          >> (throw_if (given_bad (λ r. ltb_ℤ r (pos 0)) f.hourly_rate_minor) negative_rate
              >> (statement (update_columns org id (patched e f) now) >>= λ n.
                  throw_if (n == 0) time_entry_not_found))

      written :
          (e : TimeEntry)
          → Alone
              (statement (update_columns org id (patched e f) now) >>= λ n.
                throw_if (n == 0) time_entry_not_found)
              s
              (λ u s'. Edits org id s s')
      written e = Alone-bind _ _ (
          Alone-constrained _ _ _ λ m. Alone-throw_if _ _ λ z. record {
            rows = updated_rows org id (patched e f) now s.time_entries;
            others = refl;
          })

module _ (parse_uuid parse_date : Text → Option ℕ) where
  load_error-IsRefusal :
      (B : Type 0) (e : Error) → IsRefusal (on_load_error parse_uuid parse_date {B = B} e)
  load_error-IsRefusal B time_entry_not_found = tt
  load_error-IsRefusal B e = tt

  edit_error-IsRefusal :
      (B : Type 0) (e : Error) → IsRefusal (on_edit_error parse_uuid parse_date {B = B} e)
  edit_error-IsRefusal B minutes_out_of_range = tt
  edit_error-IsRefusal B negative_rate = tt
  edit_error-IsRefusal B project_archived = tt
  edit_error-IsRefusal B project_not_found = tt
  edit_error-IsRefusal B e = tt

  patch_error-IsRefusal :
      (B : Type 0) (e : Error) → IsRefusal (on_patch_error parse_uuid parse_date {B = B} e)
  patch_error-IsRefusal B time_entry_locked = tt
  patch_error-IsRefusal B time_entry_not_found = tt
  patch_error-IsRefusal B e = edit_error-IsRefusal B e

  -- The entry of the path is the tenant's, and a contractor's own draft.
  pub record PatchedEntry (raw_id : Text) (s : Store) (p : Principal) (s' : Store) : Type 0 where
    pub id : ℕ
    pub names : parse_uuid (trim_space raw_id) ≡ some id
    pub entry : TimeEntry
    pub found : find (is_entry p.organization_id id) s.time_entries ≡ some entry
    pub own_draft :
        (is_contractor p ≡ false)
        ⊎ ((entry.user_id ≡ p.user_id) × (entry.status ≡ TimeEntryStatus.draft))
    pub edits : Edits p.organization_id id s s'

  may_edit_own :
      (p : Principal) (e : TimeEntry) (b : Bool)
      → is_contractor p ≡ b
      → may_edit parse_uuid parse_date p e ≡ true
      → (is_contractor p ≡ false) ⊎ ((e.user_id ≡ p.user_id) × (e.status ≡ TimeEntryStatus.draft))
  may_edit_own p e false h m = inl h
  may_edit_own p e true h m =
      inr (
        ground (arith, m, h),
        same_status_iff e.status TimeEntryStatus.draft (ground (arith, m, h)),
      )

  handle_patch-Replies :
      (now : ℕ) (p : Principal) (raw_id : Text) (body : Option PatchRequest) (s : Store)
      → Replies
          (handle_patch parse_uuid parse_date now p raw_id body)
          s
          (λ u s'. PatchedEntry raw_id s p s')
  unfolding handle_patch load_entry
  handle_patch-Replies now p raw_id body s =
      Replies-parsed (parse_uuid (trim_space raw_id)) _ λ id named.
        Replies-calling _ _ _ (load_error-IsRefusal (Unit {0})) (
          Alone-query _ _ (
            Alone-or_throw _ _ λ e found.
              Replies-if (may_edit parse_uuid parse_date p e) _ _
                (λ m. Replies-parsed body _ λ r given.
                  Replies-if (is_empty_patch parse_uuid parse_date r) _ _
                    (λ z. Replies-refusal _ tt)
                    λ z.
                      Replies-if_given (λ t. parse_uuid (trim_space t)) r.project_id _
                        λ project.
                          Replies-if_given (λ t. parse_date (trim_space t)) r.work_date _
                            λ day. Replies-calling _ _ _ (patch_error-IsRefusal (Unit {0})) (
                              Alone-weaken
                                (λ u s' edits. Replies-reply 204 tt (record {
                                  id = id;
                                  names = named;
                                  entry = e;
                                  found = found;
                                  own_draft = may_edit_own p e (is_contractor p) refl m;
                                  edits = edits;
                                }))
                                (update-Alone p.organization_id id
                                  (record {
                                    project_id = project;
                                    work_date = day;
                                    minutes = r.minutes;
                                    hourly_rate_minor = r.hourly_rate_minor;
                                    notes = r.notes;
                                  })
                                  now s)))
                (λ m. Replies-refusal _ tt)))

  -- The patch of an entry behind the middleware, where no other connection writes in between: where it
  -- succeeds the caller has a valid token and an active membership in the organization that it names,
  -- with a role that may write entries; the entry of the path is of that organization, and a
  -- contractor's is its own and a draft; and all that changes is the project, date, minutes, rate,
  -- notes and time of update of that entry, if it is not approved or invoiced.
  pub patch_route-IsScoped :
      (c : Crypto) (signing_key : Text) (now n : ℕ) (authorization org raw_id : Text)
      (body : Option PatchRequest) (p p' : Pool)
      → p.others ≡ []
      → route c signing_key now time_entry_write
          (λ u. handle_patch parse_uuid parse_date now u raw_id body)
          authorization
          org
          p
        ≡ (success n tt, p')
      → (u : Principal) × Admitted c now authorization org time_entry_write p.store u
        × PatchedEntry raw_id p.store u p'.store
  patch_route-IsScoped c signing_key now n authorization org raw_id body p p' o e =
      let (none_between, done) = subst (Replied _) e (
        (route-Replies c signing_key now authorization org time_entry_write p.store
            (λ u. handle_patch parse_uuid parse_date now u raw_id body)
            (λ u b s'. PatchedEntry raw_id p.store u s')
            (λ u a. handle_patch-Replies now u raw_id body p.store)).apply
          p refl o) in
      done
