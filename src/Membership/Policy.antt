-- ===== src/Membership/Policy.antt =====
-- The policy of Roles: a higher role may do whatever a lower one may, and a text that is no role may do
-- nothing.
use consulting_revenue_platf.Prelude.{
  ℕ, ◌≤◌, ◌≡◌, refl, Bool, true, false, if◌then◌else◌, Bool-cases, inl, inr, arith,
}
use consulting_revenue_platf.Prelude.Text.{Text, text_eq, text_eq_sound}
use consulting_revenue_platf.Store.{Role}
use consulting_revenue_platf.Membership.Roles.{
  role_text, owner_text, accountant_text, contractor_text, is_owner, is_staff, is_member,
  role_allows, context_read, admin_ops, membership_read, membership_write, client_read,
  client_write, project_read, project_write, time_entry_read, time_entry_write, invoice_write,
  ledger_read, audit_read, report_read, organization_deactivate,
}

-- Contractor, accountant, owner.
abbrev pub rank : Role → ℕ
rank Role.contractor = 0
rank Role.accountant = 1
rank Role.owner = 2

record IsGraded (c a o : Bool) : Type 0 where
  staff_too : c ≡ true → a ≡ true
  owner_too : a ≡ true → o ≡ true

IsGraded-if :
    (b : Bool) {c a o c' a' o' : Bool}
    → IsGraded c a o
    → IsGraded c' a' o'
    → IsGraded (if b then c else c') (if b then a else a') (if b then o else o')
IsGraded-if true h k = h
IsGraded-if false h k = k

all_may : IsGraded true true true
all_may = record { staff_too = λ h. h; owner_too = λ h. h }

staff_may : IsGraded false true true
staff_may = record { staff_too = λ h. refl; owner_too = λ h. h }

owners_may : IsGraded false false true
owners_may = record { staff_too = λ h. h; owner_too = λ h. refl }

none_may : IsGraded false false false
none_may = record { staff_too = λ h. h; owner_too = λ h. h }

policy-IsGraded :
    (action : Text)
    → IsGraded
        (role_allows contractor_text action)
        (role_allows accountant_text action)
        (role_allows owner_text action)
unfolding role_allows
policy-IsGraded action = IsGraded-if (text_eq action context_read) all_may (
    IsGraded-if (text_eq action admin_ops) owners_may (
      IsGraded-if (text_eq action membership_read) staff_may (
        IsGraded-if (text_eq action membership_write) owners_may (
          IsGraded-if (text_eq action client_read) all_may (
            IsGraded-if (text_eq action client_write) staff_may (
              IsGraded-if (text_eq action project_read) all_may (
                IsGraded-if (text_eq action project_write) staff_may (
                  IsGraded-if (text_eq action time_entry_read) all_may (
                    IsGraded-if (text_eq action time_entry_write) all_may (
                      IsGraded-if (text_eq action invoice_write) staff_may (
                        IsGraded-if (text_eq action ledger_read) staff_may (
                          IsGraded-if (text_eq action audit_read) staff_may (
                            IsGraded-if (text_eq action report_read) staff_may (
                              IsGraded-if (text_eq action organization_deactivate) owners_may
                                (none_may)))))))))))))))

-- Whatever a role may do, every role that is not lower may do: contractor, accountant, owner.
pub role_allows_monotone :
    (low high : Role) (action : Text)
    → rank low ≤ rank high
    → role_allows (role_text low) action ≡ true
    → role_allows (role_text high) action ≡ true
role_allows_monotone low high action h k = climb low high h k
  where
    climb :
        (low high : Role)
        → rank low ≤ rank high
        → role_allows (role_text low) action ≡ true
        → role_allows (role_text high) action ≡ true
    climb Role.contractor Role.contractor h k = k
    climb Role.contractor Role.accountant h k = (policy-IsGraded action).staff_too k
    climb Role.contractor Role.owner h k =
        (policy-IsGraded action).owner_too ((policy-IsGraded action).staff_too k)
    climb Role.accountant Role.contractor h k = absurd (omega (arith, h))
    climb Role.accountant Role.accountant h k = k
    climb Role.accountant Role.owner h k = (policy-IsGraded action).owner_too k
    climb Role.owner Role.contractor h k = absurd (omega (arith, h))
    climb Role.owner Role.accountant h k = absurd (omega (arith, h))
    climb Role.owner Role.owner h k = k

record IsRoleOnly (role : Text) (b : Bool) : Type 0 where
  known : b ≡ true → is_member role ≡ true

IsRoleOnly-if :
    (role : Text) (c : Bool) {b b' : Bool}
    → IsRoleOnly role b
    → IsRoleOnly role b'
    → IsRoleOnly role (if c then b else b')
IsRoleOnly-if role true h k = h
IsRoleOnly-if role false h k = k

owners_only : (role : Text) → IsRoleOnly role (is_owner role)
owners_only role = record { known = λ h. ground arith }

staff_only : (role : Text) → IsRoleOnly role (is_staff role)
staff_only role = record { known = λ h. ground arith }

policy-IsRoleOnly : (role action : Text) → IsRoleOnly role (role_allows role action)
unfolding role_allows
policy-IsRoleOnly role action =
    IsRoleOnly-if role (text_eq action context_read) (record { known = λ h. h })
      (IsRoleOnly-if role (text_eq action admin_ops) (owners_only role) (
        IsRoleOnly-if role (text_eq action membership_read) (staff_only role) (
          IsRoleOnly-if role (text_eq action membership_write) (owners_only role) (
            IsRoleOnly-if role (text_eq action client_read) (record { known = λ h. h })
              (IsRoleOnly-if role (text_eq action client_write) (staff_only role) (
                IsRoleOnly-if role (text_eq action project_read) (record { known = λ h. h })
                  (IsRoleOnly-if role (text_eq action project_write) (staff_only role) (
                    IsRoleOnly-if role (text_eq action time_entry_read) (record { known = λ h. h })
                      (IsRoleOnly-if role (text_eq action time_entry_write)
                        (record { known = λ h. h })
                        (IsRoleOnly-if role (text_eq action invoice_write) (staff_only role) (
                          IsRoleOnly-if role (text_eq action ledger_read) (staff_only role) (
                            IsRoleOnly-if role (text_eq action audit_read) (staff_only role) (
                              IsRoleOnly-if role (text_eq action report_read) (staff_only role) (
                                IsRoleOnly-if role (text_eq action organization_deactivate)
                                  (owners_only role) (record { known = λ h. cc })))))))))))))))

member_role : (role : Text) → is_member role ≡ true → (r : Role) × (role ≡ role_text r)
member_role role h = elim (Bool-cases (text_eq role owner_text)) [
  | inl t ↦ (Role.owner, text_eq_sound role owner_text t)
  | inr t ↦ elim (Bool-cases (text_eq role accountant_text)) [
    | inl u ↦ (Role.accountant, text_eq_sound role accountant_text u)
    | inr u ↦ (Role.contractor, text_eq_sound role contractor_text (rw (t, u) at h))
  ]
]

-- Whoever may do anything has one of the three roles, spelled as the table spells it.
pub role_allows_known :
    (role action : Text) → role_allows role action ≡ true → (r : Role) × (role ≡ role_text r)
role_allows_known role action h = member_role role ((policy-IsRoleOnly role action).known h)
