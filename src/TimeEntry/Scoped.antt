-- ===== src/TimeEntry/Scoped.antt =====
-- What the routes of time entries show and change: a tenant's own entries, and a contractor's own.
use mathlib.Core.Path.{subst}
use consulting_revenue_platf.Prelude.{
  ℕ, zero, suc, ◌+◌, ◌≡◌, refl, sym, ap, ◌⊎◌, inl, inr, Bool, true, false, ◌&&◌, not, Option, none,
  some, List, [], ◌∷◌, ◌==◌, leb, length, if◌then◌else◌, take, All, All-map, Bool-cases, arith,
}
use consulting_revenue_platf.Prelude.Int.{ℤ}
use consulting_revenue_platf.Prelude.Text.{Text}
use consulting_revenue_platf.Store.{TimeEntry, Store}
use consulting_revenue_platf.Store.Pool.{Pool, on_pool}
use consulting_revenue_platf.Store.Alone.{Alone, Alone-weaken, Alone-on_pool, auto-Left}
use consulting_revenue_platf.Auth.Reply.{success, Handler}
use consulting_revenue_platf.Auth.Success.{
  Replied, Replies, Replies-refusal, Replies-reply, Replies-calling, Replies-if,
}
use consulting_revenue_platf.Auth.Handlers.{Crypto}
use consulting_revenue_platf.Auth.Tenant.{Principal, route}
use consulting_revenue_platf.Auth.Admitted.{Admitted, route-Replies}
use consulting_revenue_platf.Membership.Roles.{time_entry_read}
use consulting_revenue_platf.TimeEntry.Page.{
  Filters, Cursor, is_listed, when_given, cut_page, page_rows, page_limit, list_time_entries_page,
}
use consulting_revenue_platf.TimeEntry.Sorted.{All-order_entries}
use consulting_revenue_platf.TimeEntry.Pages.{select-meets}
use consulting_revenue_platf.TimeEntry.Routes.{
  ListQuery, is_contractor, given, parsed, parsed_if_given, listed_user, limit_of, decode_cursor,
  handle_list,
}

-- In the tenant's organization, and a contractor's own.
abbrev pub Visible : Principal → TimeEntry → Type 0
Visible p e =
    (e.organization_id ≡ p.organization_id) × ((is_contractor p ≡ false) ⊎ (e.user_id ≡ p.user_id))

abbrev UserFits : Principal → Option ℕ → Type 0
UserFits p o = (is_contractor p ≡ false) ⊎ (o ≡ some p.user_id)

All-take {κ} : (P : TimeEntry → Type κ) (n : ℕ) (es : List TimeEntry) → All P es → All P (take n es)
All-take P zero es h = tt
All-take P (suc n) [] h = tt
All-take P (suc n) (e ∷ es) h = (h.0, All-take P n es h.1)

All-cut_page {κ} :
    (P : TimeEntry → Type κ) (n : ℕ) (es : List TimeEntry) → All P es → All P (cut_page n es).0
All-cut_page P n es h = elim (Bool-cases (leb (length es) n)) [
  | inl t ↦ rw t h
  | inr t ↦ rw t (All-take P n es h)
]

listed-Visible :
    (p : Principal) (f : Filters) (b : Bool) (e : TimeEntry)
    → UserFits p f.user_id
    → (is_listed p.organization_id f e && b) ≡ true
    → Visible p e
unfolding is_listed
listed-Visible p f b e (inl c) h = (ground arith, inl c)
listed-Visible p f b e (inr u) h =
    let w : when_given (λ id. e.user_id == id) f.user_id ≡ true = ground arith in
    let own : (e.user_id == p.user_id) ≡ true =
      subst (λ o. when_given (λ id. e.user_id == id) o ≡ true) u w in
    (ground arith, inr (ground (arith, own)))

page-Alone :
    (org : ℕ) (f : Filters) (c : Option Cursor) (limit : ℤ) (s : Store)
    → Alone (on_pool (list_time_entries_page org f c limit)) s (λ r s'.
      (s' ≡ s) × (r ≡ cut_page (page_limit limit) (page_rows org f c (page_limit limit) s)))
unfolding list_time_entries_page
page-Alone org f c limit s = Alone-on_pool _ _ s (auto-Left _ (cut_page (page_limit limit)) s)

page-Visible :
    (p : Principal) (f : Filters) (c : Option Cursor) (n : ℕ) (s : Store)
    → UserFits p f.user_id
    → All (Visible p) (cut_page n (page_rows p.organization_id f c n s)).0
page-Visible p f c n s u = All-cut_page (Visible p) n _ (
    All-take (Visible p) (n + 1) _ (
      All-order_entries (Visible p) _ (
        All-map _ (Visible p) _ (λ e h. listed-Visible p f _ e u h)
          (select-meets _ s.time_entries))))

module _ {A B : Type 0} {s : Store} {Q : B → Store → Type 0} where
  pub Replies-parsed :
      (o : Option A) (k : A → Handler B)
      → ((a : A) → o ≡ some a → Replies (k a) s Q)
      → Replies (parsed o k) s Q
  Replies-parsed none k h = Replies-refusal _ tt
  Replies-parsed (some a) k h = h a refl

  pub Replies-if_given :
      (parse : Text → Option A) (o : Option Text) (k : Option A → Handler B)
      → ((a : Option A) → Replies (k a) s Q)
      → Replies (parsed_if_given parse o k) s Q
  Replies-if_given parse none k h = h none
  Replies-if_given parse (some t) k h = Replies-parsed (parse t) _ (λ a e. h (some a))

own-UserFits :
    (p : Principal) (b : Bool)
    → is_contractor p ≡ b
    → UserFits p (if b then some p.user_id else none)
own-UserFits p true h = inr refl
own-UserFits p false h = inl h

module _ (parse_uuid parse_date : Text → Option ℕ) {B : Type 0} {s : Store}
    {Q : B → Store → Type 0} where
  Replies-listed_user :
      (p : Principal) (o : Option Text) (k : Option ℕ → Handler B)
      → ((u : Option ℕ) → UserFits p u → Replies (k u) s Q)
      → Replies (listed_user parse_uuid parse_date p o k) s Q
  Replies-listed_user p none k h = h _ (own-UserFits p (is_contractor p) refl)
  Replies-listed_user p (some t) k h = Replies-parsed (parse_uuid t) _ λ id e.
      Replies-if (is_contractor p && not (id == p.user_id)) _ _ (λ b. Replies-refusal _ tt)
        (λ b. h (some id) (allowed id b (is_contractor p) refl))
    where
      allowed :
          (id : ℕ)
          → (is_contractor p && not (id == p.user_id)) ≡ false
          → (b : Bool) → is_contractor p ≡ b
          → UserFits p (some id)
      allowed id b false e = inl e
      allowed id b true e =
          let same : (id == p.user_id) ≡ true = ground (arith, b, e) in
          inr (ap some (ground (arith, same)))

module _ (parse_uuid parse_date : Text → Option ℕ) (q : ListQuery) (s : Store) where
  handle_list-Replies :
      (p : Principal)
      → Replies (handle_list parse_uuid parse_date p q) s (λ r s'. (s' ≡ s) × All (Visible p) r.0)
  unfolding handle_list
  handle_list-Replies p = Replies-if_given parse_uuid (given q.project_id) _ λ project.
      Replies-listed_user parse_uuid parse_date p (given q.user_id) _ λ user fits.
        Replies-if_given parse_date (given q.from_date) _ λ from.
          Replies-if_given parse_date (given q.to_date) _ λ to.
            Replies-parsed (limit_of parse_uuid parse_date (given q.limit)) _ λ limit e.
              Replies-parsed (decode_cursor parse_uuid parse_date q.cursor) _ λ cursor e.
                Replies-calling _ _ _ (λ e. tt)
                  (Alone-weaken
                    (λ r s' h. Replies-reply 200 r (
                      h.0,
                      subst (λ x. All (Visible p) x.0) (sym h.1)
                          (page-Visible p
                            (record {
                              project_id = project;
                              user_id = user;
                              status = given q.status;
                              from_date = from;
                              to_date = to;
                            })
                            cursor (page_limit limit) s fits),
                    ))
                    (page-Alone p.organization_id _ cursor limit s))

  -- The listing of entries behind the middleware, where no other connection writes in between: where it
  -- succeeds the caller has a valid token and an active membership in the organization that it names,
  -- with a role that may read entries; every entry shown is of that organization, and a contractor's
  -- are its own, whatever filters, limit and cursor are sent; and nothing has changed.
  pub list_route-IsScoped :
      (c : Crypto) (signing_key : Text) (now n : ℕ) (authorization org : Text) (p p' : Pool)
      (r : List TimeEntry × Option Cursor)
      → p.store ≡ s
      → p.others ≡ []
      → route c signing_key now time_entry_read
          (λ u. handle_list parse_uuid parse_date u q)
          authorization
          org
          p
        ≡ (success n r, p')
      → (u : Principal) × Admitted c now authorization org time_entry_read s u
        × (p'.store ≡ s)
        × All (Visible u) r.0
  list_route-IsScoped c signing_key now n authorization org p p' r h o e =
      let (none_between, (u, a, (same, shown))) = subst (Replied _) e (
        (route-Replies c signing_key now authorization org time_entry_read s
            (λ u. handle_list parse_uuid parse_date u q) (λ u r s'. (s' ≡ s) × All (Visible u) r.0)
            (λ u a. handle_list-Replies u)).apply
          p h o) in
      (u, a, same, shown)
