-- ===== src/Membership/Roles.antt =====
-- `RoleAllows` of internal/authz/policy.go, and `normalizeMembershipRole` of
-- internal/repo/memberships.go.
use consulting_revenue_platf.Prelude.{Bool, false, ◌||◌, if◌then◌else◌}
use consulting_revenue_platf.Prelude.Text.{Text, codes, text_eq, trim_space, to_lower}
use consulting_revenue_platf.Store.{Role, invalid_role, Result, ok, err}

abbrev pub owner_text : Text
owner_text = codes "owner"

abbrev pub accountant_text : Text
accountant_text = codes "accountant"

abbrev pub contractor_text : Text
contractor_text = codes "contractor"

-- The text that the column holds.
abbrev pub role_text : Role → Text
role_text Role.owner = owner_text
role_text Role.accountant = accountant_text
role_text Role.contractor = contractor_text

-- `normalizeMembershipRole`.
unfoldable pub normalize_role : Text → Result Role
normalize_role s =
    let t = to_lower (trim_space s) in
    if text_eq t owner_text
    then ok Role.owner
    else if text_eq t accountant_text
    then ok Role.accountant
    else if text_eq t contractor_text
    then ok Role.contractor
    else err invalid_role

-- The actions.
abbrev pub context_read : Text
context_read = codes "context.read"

abbrev pub admin_ops : Text
admin_ops = codes "admin.ops"

abbrev pub membership_read : Text
membership_read = codes "membership.read"

abbrev pub membership_write : Text
membership_write = codes "membership.write"

abbrev pub client_read : Text
client_read = codes "client.read"

abbrev pub client_write : Text
client_write = codes "client.write"

abbrev pub project_read : Text
project_read = codes "project.read"

abbrev pub project_write : Text
project_write = codes "project.write"

abbrev pub time_entry_read : Text
time_entry_read = codes "time_entry.read"

abbrev pub time_entry_write : Text
time_entry_write = codes "time_entry.write"

abbrev pub invoice_write : Text
invoice_write = codes "invoice.write"

abbrev pub ledger_read : Text
ledger_read = codes "ledger.read"

abbrev pub audit_read : Text
audit_read = codes "audit.read"

abbrev pub report_read : Text
report_read = codes "report.read"

abbrev pub organization_deactivate : Text
organization_deactivate = codes "organization.deactivate"

abbrev pub is_owner : Text → Bool
is_owner role = text_eq role owner_text

abbrev pub is_staff : Text → Bool
is_staff role = text_eq role owner_text || text_eq role accountant_text

abbrev pub is_member : Text → Bool
is_member role =
    text_eq role owner_text || text_eq role accountant_text || text_eq role contractor_text

-- `RoleAllows`: role, action.
unfoldable pub role_allows : Text → Text → Bool
role_allows role action =
    if text_eq action context_read
    then is_member role
    else if text_eq action admin_ops
    then is_owner role
    else if text_eq action membership_read
    then is_staff role
    else if text_eq action membership_write
    then is_owner role
    else if text_eq action client_read
    then is_member role
    else if text_eq action client_write
    then is_staff role
    else if text_eq action project_read
    then is_member role
    else if text_eq action project_write
    then is_staff role
    else if text_eq action time_entry_read
    then is_member role
    else if text_eq action time_entry_write
    then is_member role
    else if text_eq action invoice_write
    then is_staff role
    else if text_eq action ledger_read
    then is_staff role
    else if text_eq action audit_read
    then is_staff role
    else if text_eq action report_read
    then is_staff role
    else if text_eq action organization_deactivate
    then is_owner role
    else false
