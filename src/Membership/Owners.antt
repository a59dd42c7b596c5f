-- ===== src/Membership/Owners.antt =====
-- How the changes of one row count in the number of an organization's active owners.
use consulting_revenue_platf.Prelude.{
  ℕ, ◌+◌, ◌≤◌, ◌≡◌, refl, inl, inr, true, false, ◌&&◌, not, some, List, [], ◌∷◌, ◌==◌, leb,
  if◌then◌else◌, find, find_sound, some_inj, update_where, delete_where, arith, Bool-cases, ==_iff,
}
use mathlib.Core.Path.{sym, subst}
use consulting_revenue_platf.Store.{Role, Membership}
use consulting_revenue_platf.Membership.Store.{
  is_owner_role, is_active, is_membership, is_active_owner, owners, id_taken, set_role,
}

-- The primary key.
abbrev pub IsDistinct : List Membership → Type 0
IsDistinct [] = Unit
IsDistinct (m ∷ ms) = (id_taken m.id ms ≡ false) × IsDistinct ms

abbrev pub weight : ℕ → Membership → ℕ
weight o m = if is_active_owner o m then 1 else 0

module _ (org id : ℕ) where
  update_absent :
      (f : Membership → Membership) (ms : List Membership)
      → id_taken id ms ≡ false
      → update_where (is_membership org id) f ms ≡ ms
  update_absent f [] h = refl
  update_absent f (m ∷ ms) h = elim (Bool-cases (m.id == id)) [
    | inl t ↦ absurd (ground arith)
    | inr t ↦ rw (t, update_absent f ms (ground arith))
  ]

  delete_absent :
      (ms : List Membership) → id_taken id ms ≡ false → delete_where (is_membership org id) ms ≡ ms
  delete_absent [] h = refl
  delete_absent (m ∷ ms) h = elim (Bool-cases (m.id == id)) [
    | inl t ↦ absurd (ground arith)
    | inr t ↦ rw (t, delete_absent ms (ground arith))
  ]

  own_id :
      (m : Membership) (ms : List Membership)
      → is_membership org id m ≡ true
      → id_taken m.id ms ≡ false
      → id_taken id ms ≡ false
  own_id m ms t h = subst (λ x. id_taken x ms ≡ false) ((==_iff m.id id).0 (ground arith)) h

  pub owners-update :
      (o : ℕ) (role : Role) (ms : List Membership) (rec : Membership)
      → IsDistinct ms
      → find (is_membership org id) ms ≡ some rec
      → owners o ms + weight o (set_role role rec)
        ≡ owners o (update_where (is_membership org id) (set_role role) ms) + weight o rec
  owners-update o role [] rec d f = cc
  owners-update o role (m ∷ ms) rec d f = elim (Bool-cases (is_membership org id m)) [
    | inl t ↦
        let e : m ≡ rec = some_inj (rw t at f) in
        rw (t, sym e, update_absent (set_role role) ms (own_id m ms t d.0)) (omega arith)
    | inr t ↦ rw t (
        let k : owners o ms + weight o (set_role role rec)
            ≡ owners o (update_where (is_membership org id) (set_role role) ms) + weight o rec =
          owners-update o role ms rec d.1 (rw t at f) in
        omega (arith, k))
  ]

  pub owners-delete :
      (o : ℕ) (ms : List Membership) (rec : Membership)
      → IsDistinct ms
      → find (is_membership org id) ms ≡ some rec
      → owners o ms ≡ owners o (delete_where (is_membership org id) ms) + weight o rec
  owners-delete o [] rec d f = cc
  owners-delete o (m ∷ ms) rec d f = elim (Bool-cases (is_membership org id m)) [
    | inl t ↦
        let e : m ≡ rec = some_inj (rw t at f) in
        rw (t, sym e, delete_absent ms (own_id m ms t d.0)) (omega arith)
    | inr t ↦
        let k : owners o ms ≡ owners o (delete_where (is_membership org id) ms) + weight o rec =
          owners-delete o ms rec d.1 (rw t at f) in
        rw t (omega (arith, k))
  ]

  id_taken-update :
      (i : ℕ) (role : Role) (ms : List Membership)
      → id_taken i (update_where (is_membership org id) (set_role role) ms) ≡ id_taken i ms
  id_taken-update i role [] = refl
  id_taken-update i role (m ∷ ms) = ground (arith, id_taken-update i role ms)

  pub update-IsDistinct :
      (role : Role) (ms : List Membership)
      → IsDistinct ms
      → IsDistinct (update_where (is_membership org id) (set_role role) ms)
  update-IsDistinct role [] d = tt
  update-IsDistinct role (m ∷ ms) d =
      (ground (arith, id_taken-update m.id role ms), update-IsDistinct role ms d.1)

  id_taken-delete :
      (i : ℕ) (ms : List Membership)
      → id_taken i ms ≡ false
      → id_taken i (delete_where (is_membership org id) ms) ≡ false
  id_taken-delete i [] h = refl
  id_taken-delete i (m ∷ ms) h = ground (arith, id_taken-delete i ms)

  pub delete-IsDistinct :
      (ms : List Membership) → IsDistinct ms → IsDistinct (delete_where (is_membership org id) ms)
  delete-IsDistinct [] d = tt
  delete-IsDistinct (m ∷ ms) d = elim (Bool-cases (is_membership org id m)) [
    | inl t ↦ rw t (delete-IsDistinct ms d.1)
    | inr t ↦ rw t (id_taken-delete m.id ms d.0, delete-IsDistinct ms d.1)
  ]

  -- The guards leave an owner in every organization that had one.
  pub update_leaves_owner :
      (o : ℕ) (role : Role) (ms : List Membership) (rec : Membership)
      → IsDistinct ms
      → find (is_membership org id) ms ≡ some rec
      → ((is_owner_role rec.role && not (is_owner_role role)) && leb (owners org ms) 1) ≡ false
      → 1 ≤ owners o ms
      → 1 ≤ owners o (update_where (is_membership org id) (set_role role) ms)
  update_leaves_owner o role ms rec d f g h =
      let k : owners o ms + weight o (set_role role rec)
          ≡ owners o (update_where (is_membership org id) (set_role role) ms) + weight o rec =
        owners-update o role ms rec d f in
      let own : is_membership org id rec ≡ true = find_sound (is_membership org id) ms rec f in
      elim (Bool-cases (o == org)) [
        | inl t ↦
            let e : o ≡ org = (==_iff o org).0 t in
            let n : ((is_owner_role rec.role && not (is_owner_role role)) && leb (owners o ms) 1)
                ≡ false =
              rw e g in
            ground (arith, k, n, own)
        | inr t ↦ ground (arith, k, own)
      ]

  pub delete_leaves_owner :
      (o : ℕ) (ms : List Membership) (rec : Membership)
      → IsDistinct ms
      → find (is_membership org id) ms ≡ some rec
      → ((is_owner_role rec.role && is_active rec.status) && leb (owners org ms) 1) ≡ false
      → 1 ≤ owners o ms
      → 1 ≤ owners o (delete_where (is_membership org id) ms)
  delete_leaves_owner o ms rec d f g h =
      let k : owners o ms ≡ owners o (delete_where (is_membership org id) ms) + weight o rec =
        owners-delete o ms rec d f in
      let own : is_membership org id rec ≡ true = find_sound (is_membership org id) ms rec f in
      elim (Bool-cases (o == org)) [
        | inl t ↦
            let e : o ≡ org = (==_iff o org).0 t in
            let n : ((is_owner_role rec.role && is_active rec.status) && leb (owners o ms) 1)
                ≡ false =
              rw e g in
            ground (arith, k, n, own)
        | inr t ↦ ground (arith, k, own)
      ]
