-- ===== src/Membership/Requests.antt =====
-- Requests on memberships, one after the other: no organization loses its last active owner.
use consulting_revenue_platf.Prelude.{
  ℕ, ◌≤◌, ◌≡◌, refl, ◌⊎◌, inl, inr, Bool, true, false, ◌&&◌, not, Option, none, some, List, [], ◌∷◌,
  leb, if◌then◌else◌, find, update_where, delete_where, arith, Bool-cases,
}
use mathlib.Core.Path.{sym, subst}
use consulting_revenue_platf.Prelude.Text.{Text}
use consulting_revenue_platf.Store.{
  Role, Membership, Store, Conn, Error, sql_failed, membership_not_found, last_owner_protected,
  duplicate_membership, Result, ok, err, Tx, ◌>>=◌, pure, stmt, auto, next_fault, settle, Db,
  Ensures, Ensures-query, Ensures-or_throw, Ensures-throw_if_last, Ensures-checked,
  Ensures-exec_last, Ensures-pure, Ensures-bind, Outcome, run_in_tx-Outcome, run_in_tx,
}
use consulting_revenue_platf.Membership.Roles.{normalize_role}
use consulting_revenue_platf.Membership.Store.{
  is_owner_role, is_active, is_membership, owners, get_membership, guard_last_owner,
  insert_membership, active_membership, create_active_membership, set_role, user_taken, id_taken,
  update_role, update_role_tx, update_membership_role, some_membership, delete_row, delete_tx,
  delete_membership,
}
use consulting_revenue_platf.Membership.Owners.{
  IsDistinct, update_leaves_owner, delete_leaves_owner, update-IsDistinct, delete-IsDistinct,
}

-- Organization `o` has an active owner, and ids are distinct.
pub record IsOwned (o : ℕ) (s : Store) : Type 0 where
  pub distinct : IsDistinct s.memberships
  pub has_owner : 1 ≤ owners o s.memberships

guarded :
    (org : ℕ) (s : Store) (b : Bool) (k : Unit {0} → Tx (Unit {0})) (Q : Unit {0} → Store → Type 0)
    (E : Error → Bool → Store → Type 0)
    → ((b && leb (owners org s.memberships) 1) ≡ false → Ensures (k tt) s Q E)
    → (b ≡ true → leb (owners org s.memberships) 1 ≡ true → E last_owner_protected false s)
    → Ensures ((if b then guard_last_owner org else pure tt) >>= k) s Q E
unfolding guard_last_owner
guarded org s true k Q E f g =
    Ensures-bind _ _ (Ensures-query _ _ (Ensures-throw_if_last _ _ (λ t. g refl t) (λ t. f t)))
guarded org s false k Q E f g = Ensures-bind _ _ (Ensures-pure _ (f refl))

-- The row was found, the guard did not hold, and `change` was made.
abbrev pub Changed :
    (Membership → Bool) → (List Membership → List Membership) → ℕ → ℕ → Store → Store → Type 0
Changed is_guarded change org id s s' =
    (rec : Membership) × (find (is_membership org id) s.memberships ≡ some rec)
    × ((is_guarded rec && leb (owners org s.memberships) 1) ≡ false)
    × (s' ≡ record s { memberships = change s.memberships })

-- The row is missing, or it is guarded and at most one active owner is left.
abbrev pub Protected : (Membership → Bool) → ℕ → ℕ → Store → Error → Type 0
Protected is_guarded org id s e =
    ((e ≡ membership_not_found) × (find (is_membership org id) s.memberships ≡ none))
    ⊎ ((e ≡ last_owner_protected)
        × ((rec : Membership) × (find (is_membership org id) s.memberships ≡ some rec)
            × (is_guarded rec ≡ true)
            × (leb (owners org s.memberships) 1 ≡ true)))

module _ (org id : ℕ) where
  -- What the two guards ask.
  abbrev pub demotes : Role → Membership → Bool
  demotes role rec = is_owner_role rec.role && not (is_owner_role role)

  abbrev pub removes_owner : Membership → Bool
  removes_owner rec = is_owner_role rec.role && is_active rec.status

  abbrev pub with_role : Role → List Membership → List Membership
  with_role role ms = update_where (is_membership org id) (set_role role) ms

  abbrev pub without : List Membership → List Membership
  without ms = delete_where (is_membership org id) ms

  update_role_tx-Ensures :
      (role : Role) (s : Store)
      → Ensures
          (update_role_tx org id role)
          s
          (λ u s'. Changed (demotes role) (with_role role) org id s s')
          (λ e b s'. Protected (demotes role) org id s e)
  unfolding update_role_tx get_membership
  update_role_tx-Ensures role s = Ensures-bind _ _ (
      Ensures-query _ _ (
        Ensures-or_throw _ _ (λ h. inl (refl, h))
          (λ rec f.
            guarded org s (demotes role rec) _ _ _
              (λ g. Ensures-exec_last (update_role org id role) (rec, f, g, refl))
              (λ t l. inr (refl, (rec, f, t, l))))))

  delete_tx-Ensures :
      (s : Store)
      → Ensures
          (delete_tx org id)
          s
          (λ u s'. Changed removes_owner without org id s s')
          (λ e b s'. Protected removes_owner org id s e)
  unfolding delete_tx get_membership
  delete_tx-Ensures s = Ensures-bind _ _ (
      Ensures-query _ _ (
        Ensures-or_throw _ _ (λ h. inl (refl, h))
          (λ rec f.
            guarded org s (removes_owner rec) _ _ _
              (λ g. Ensures-checked (delete_row org id) _ (
                Ensures-throw_if_last _ _ (λ t. inl (refl, missing _ refl t))
                  (λ t. (rec, f, g, refl))))
              (λ t l. inr (refl, (rec, f, t, l))))))
    where
      missing :
          (o : Option Membership)
          → find (is_membership org id) s.memberships ≡ o
          → not (some_membership o) ≡ true
          → find (is_membership org id) s.memberships ≡ none
      missing none h t = h
      missing (some m) h t = cc

  -- `DeleteMembership`, with any calls of the driver failed: it deletes the row it finds, unless that is
  -- an active owner's and at most one active owner is counted; and on every error nothing is changed.
  pub delete_membership-Outcome :
      (d : Db)
      → Outcome
          (λ u s'. Changed removes_owner without org id d.store s')
          (λ e b s'. Protected removes_owner org id d.store e)
          d
          (delete_membership org id d)
  unfolding delete_membership
  delete_membership-Outcome d = run_in_tx-Outcome _ _ _ d (delete_tx-Ensures d.store)

pub data MembershipRequest : Type 0 where
  adding : ℕ → ℕ → ℕ → Text → MembershipRequest
  changing : ℕ → ℕ → Text → MembershipRequest
  removing : ℕ → ℕ → MembershipRequest

unfoldable pub serve : MembershipRequest → Db → Db
serve (adding new_id org user role) d = (create_active_membership new_id org user role d).1
serve (changing org id role) d = (update_membership_role org id role d).1
serve (removing org id) d = (delete_membership org id d).1

unfoldable pub serve_all : List MembershipRequest → Db → Db
serve_all [] d = d
serve_all (r ∷ rs) d = serve_all rs (serve r d)

module _ (o : ℕ) where
  Changed-IsOwned :
      (org id : ℕ) (is_guarded : Membership → Bool) (change : List Membership → List Membership)
      (d : Db) (r : Result (Unit {0}) × Db)
      → ((ms : List Membership) → IsDistinct ms → IsDistinct (change ms))
      → ((ms : List Membership) (rec : Membership)
          → IsDistinct ms
          → find (is_membership org id) ms ≡ some rec
          → (is_guarded rec && leb (owners org ms) 1) ≡ false
          → 1 ≤ owners o ms
          → 1 ≤ owners o (change ms))
      → Outcome
          (λ u s'. Changed is_guarded change org id d.store s')
          (λ e b s'. Protected is_guarded org id d.store e)
          d
          r
      → IsOwned o d.store
      → IsOwned o r.1.store
  Changed-IsOwned org id is_guarded change d (ok u, d') kd ko (rec, f, g, e) h =
      subst (IsOwned o) (sym e) (record {
        distinct = kd d.store.memberships h.distinct;
        has_owner = ko d.store.memberships rec h.distinct f g h.has_owner;
      })
  Changed-IsOwned org id is_guarded change d (err x, d') kd ko q h = subst (IsOwned o) (sym q.0) h

  removing-IsOwned :
      (org id : ℕ) (d : Db) → IsOwned o d.store → IsOwned o (delete_membership org id d).1.store
  removing-IsOwned org id d h =
      Changed-IsOwned org id (removes_owner org id) (without org id) d (delete_membership org id d)
        (delete-IsDistinct org id) (delete_leaves_owner org id o)
        (delete_membership-Outcome org id d) h

  changing-IsOwned :
      (org id : ℕ) (role : Text) (d : Db)
      → IsOwned o d.store
      → IsOwned o (update_membership_role org id role d).1.store
  unfolding update_membership_role
  changing-IsOwned org id role d h = normalized (normalize_role role)
    where
      normalized :
          (r : Result Role)
          → IsOwned o
              (elim r as (λ x. Result (Unit {0}) × Db) [
                | err e ↦ (err e, d)
                | ok x ↦ run_in_tx (update_role_tx org id x) d
              ]).1.store
      normalized (err e) = h
      normalized (ok x) =
          Changed-IsOwned org id (demotes org id x) (with_role org id x) d
            (run_in_tx (update_role_tx org id x) d) (update-IsDistinct org id x)
            (update_leaves_owner org id o x)
            (run_in_tx-Outcome _ _ _ d (update_role_tx-Ensures org id x d.store)) h

  inserted-IsOwned :
      (m : Membership) (s : Store) (c : Conn) (u i : Bool)
      → id_taken m.id s.memberships ≡ i
      → IsOwned o s
      → c.store ≡ s
      → IsOwned o
          (settle {A = ℕ}
            (if u
              then err duplicate_membership
              else if i
              then err sql_failed
              else ok (m.id, record s { memberships = m ∷ s.memberships }))
            c).1.store
  inserted-IsOwned m s c true i e h k = rw k h
  inserted-IsOwned m s c false true e h k = rw k h
  inserted-IsOwned m s c false false e h k =
      let n : 1 ≤ owners o s.memberships = h.has_owner in
      record { distinct = (e, h.distinct); has_owner = omega (arith, n) }

  added-IsOwned :
      (m : Membership) (d : Db)
      → IsOwned o d.store
      → IsOwned o (auto (stmt (insert_membership m)) d).1.store
  unfolding auto stmt
  added-IsOwned m d h = elim (Bool-cases (next_fault d.faults)) [
    | inl t ↦ rw t h
    | inr t ↦ rw t (
        inserted-IsOwned m d.store _ (user_taken m.organization_id m.user_id d.store.memberships)
          (id_taken m.id d.store.memberships) refl h refl)
  ]

  adding-IsOwned :
      (new_id org user : ℕ) (role : Text) (d : Db)
      → IsOwned o d.store
      → IsOwned o (create_active_membership new_id org user role d).1.store
  unfolding create_active_membership
  adding-IsOwned new_id org user role d h = normalized (normalize_role role)
    where
      normalized :
          (r : Result Role)
          → IsOwned o
              (elim r as (λ x. Result ℕ × Db) [
                | err e ↦ (err e, d)
                | ok x ↦ auto (stmt (insert_membership (active_membership new_id org user x))) d
              ]).1.store
      normalized (err e) = h
      normalized (ok x) = added-IsOwned (active_membership new_id org user x) d h

  serve-IsOwned : (r : MembershipRequest) (d : Db) → IsOwned o d.store → IsOwned o (serve r d).store
  unfolding serve
  serve-IsOwned (adding new_id org user role) d h = adding-IsOwned new_id org user role d h
  serve-IsOwned (changing org id role) d h = changing-IsOwned org id role d h
  serve-IsOwned (removing org id) d h = removing-IsOwned org id d h

  -- After any requests to add, change and remove memberships, one after the other and with any calls of
  -- the driver failed, an organization that had an active owner still has one.
  pub serve_all-IsOwned :
      (rs : List MembershipRequest) (d : Db) → IsOwned o d.store → IsOwned o (serve_all rs d).store
  unfolding serve_all
  serve_all-IsOwned [] d h = h
  serve_all-IsOwned (r ∷ rs) d h = serve_all-IsOwned rs (serve r d) (serve-IsOwned r d h)
