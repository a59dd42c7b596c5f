-- ===== src/Audit/Metadata.antt =====
-- Audit metadata (internal/repo/audit.go): JSON-like values, and their redaction before storage.
use consulting_revenue_platf.Prelude.{
  ℕ, Bool, true, false, ◌||◌, Option, none, some, List, [], ◌∷◌, if◌then◌else◌,
}
use consulting_revenue_platf.Prelude.Text.{Text, codes, text_eq, trim_space, to_lower}
use consulting_revenue_platf.Prelude.Search.{has_suffix, contains}

-- A Go value: `map[string]any`, `[]any`, or anything else.
mutual
  pub data Value : Type 0 where
    object : Fields → Value
    array : Items → Value
    scalar : Text → Value

  pub data Fields : Type 0 where
    end : Fields
    field : Text → Value → Fields → Fields

  pub data Items : Type 0 where
    nil : Items
    cons : Value → Items → Items

abbrev pub any_suffix : List Text → Text → Bool
any_suffix [] k = false
any_suffix (s ∷ ss) k = has_suffix s k || any_suffix ss k

abbrev pub any_equal : List Text → Text → Bool
any_equal [] k = false
any_equal (s ∷ ss) k = text_eq s k || any_equal ss k

abbrev pub secret_suffixes : List Text
secret_suffixes =
    codes "_token" ∷ codes "_secret" ∷ codes "_signature" ∷ codes "_hash" ∷ codes "_cookie" ∷ []

abbrev pub secret_keys : List Text
secret_keys =
    codes "password"
    ∷ codes "token"
    ∷ codes "refresh_token"
    ∷ codes "access_token"
    ∷ codes "authorization"
    ∷ codes "secret"
    ∷ codes "api_key"
    ∷ codes "apikey"
    ∷ codes "webhook_secret"
    ∷ codes "stripe_signature"
    ∷ codes "signature"
    ∷ codes "cookie"
    ∷ codes "cookies"
    ∷ codes "bearer"
    ∷ []

-- `sensitiveJSONKey`, of a key that is trimmed and in lower case.
unfoldable pub sensitive_json_key : Text → Bool
unfolding has_suffix contains
sensitive_json_key [] = false
sensitive_json_key (c ∷ k) =
    contains (codes "password") (c ∷ k)
    || contains (codes "passwd") (c ∷ k)
    || any_suffix secret_suffixes (c ∷ k)
    || any_equal secret_keys (c ∷ k)

abbrev pub lowered : Text → Text
lowered k = to_lower (trim_space k)

abbrev pub redacted_text : Text
redacted_text = codes "[REDACTED]"

-- `RedactAuditMetadata`.
unfoldable mutual
  unfolding sensitive_json_key trim_space to_lower

  pub redact : Value → Value
  redact (object fs) = object (redact_fields fs)
  redact (array vs) = array (redact_items vs)
  redact (scalar t) = scalar t

  pub redact_fields : Fields → Fields
  redact_fields end = end
  redact_fields (field k v fs) =
      let inner = redact v in
      field k (if sensitive_json_key (lowered k) then scalar redacted_text else inner)
        (redact_fields fs)

  pub redact_items : Items → Items
  redact_items nil = nil
  redact_items (cons v vs) = cons (redact v) (redact_items vs)

-- `InsertAuditLogParams`, and the row that is written.
pub record AuditParams : Type 0 where
  pub organization_id : Option ℕ
  pub actor_user_id : Option ℕ
  pub action : Text
  pub entity_type : Text
  pub entity_id : Option ℕ
  pub metadata : Option Fields

pub record AuditRow : Type 0 where
  pub organization_id : Option ℕ
  pub actor_user_id : Option ℕ
  pub action : Text
  pub entity_type : Text
  pub entity_id : Option ℕ
  pub metadata : Text

pub data AuditResult : Type 0 where
  action_required not_marshalled : AuditResult
  written : AuditRow → AuditResult

-- `cloneMetadata`: a nil map is an empty one.
abbrev pub clone_metadata : Option Fields → Fields
clone_metadata none = end
clone_metadata (some fs) = fs

abbrev pub row_of : AuditParams → Option Text → AuditResult
row_of p none = not_marshalled
row_of p (some b) = written (record {
  organization_id = p.organization_id;
  actor_user_id = p.actor_user_id;
  action = p.action;
  entity_type = trim_space p.entity_type;
  entity_id = p.entity_id;
  metadata = b;
})

abbrev pub is_empty : Text → Bool
is_empty [] = true
is_empty (c ∷ s) = false

-- `insertAuditLog` up to its `INSERT`, by how `json.Marshal` prints a value.
unfoldable pub insert_audit_log : (Value → Option Text) → AuditParams → AuditResult
unfolding redact redact_fields redact_items trim_space
insert_audit_log marshal p =
    if is_empty (trim_space p.action)
    then action_required
    else row_of p (marshal (redact (object (clone_metadata p.metadata))))
