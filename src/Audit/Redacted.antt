-- ===== src/Audit/Redacted.antt =====
-- No secret is left in redacted metadata, and nothing else is changed.
use mathlib.Core.Path.{subst}
use consulting_revenue_platf.Prelude.{
  ◌≡◌, refl, sym, ap, ◌∙◌, ◌⊎◌, ◌↔◌, inl, inr, Bool, true, false, ◌||◌, List, [], ◌∷◌, ◌++◌,
  Bool-cases, if◌then◌else◌, arith,
}
use consulting_revenue_platf.Prelude.Text.{Text, codes, text_eq, text_eq_refl, text_eq_sound}
use consulting_revenue_platf.Prelude.Search.{
  has_prefix, has_suffix, contains, has_suffix-append, contains-append, contains_sound,
  has_suffix_sound,
}
use consulting_revenue_platf.Audit.Metadata.{
  Value, object, array, scalar, Fields, end, field, Items, nil, cons, any_suffix, any_equal,
  secret_suffixes, secret_keys, sensitive_json_key, lowered, redacted_text, redact, redact_fields,
  redact_items,
}

abbrev pub OneOf : (Text → Text → Type 0) → List Text → Text → Type 0
OneOf P [] k = ⊥
OneOf P (s ∷ ss) k = P s k ⊎ OneOf P ss k

-- `k` is `a`, then `s`, then `b`.
pub data Contains (s k : Text) : Type 0 where
  within : (a b : Text) → k ≡ a ++ (s ++ b) → Contains s k

pub data EndsIn (s k : Text) : Type 0 where
  ending : (a : Text) → k ≡ a ++ s → EndsIn s k

abbrev IsSecret : Text → Type 0
IsSecret t =
    Contains (codes "password") t
    ⊎ Contains (codes "passwd") t
    ⊎ OneOf EndsIn secret_suffixes t
    ⊎ OneOf (λ s k. k ≡ s) secret_keys t

-- A key that names a secret, whatever its case and the space around it.
abbrev pub NamesSecret : Text → Type 0
NamesSecret k = IsSecret (lowered k)

-- Under such a key there is the mask only, at any depth.
mutual
  pub IsClean : Value → Type 0
  IsClean (object fs) = FieldsClean fs
  IsClean (array vs) = ItemsClean vs
  IsClean (scalar t) = Unit

  pub FieldsClean : Fields → Type 0
  FieldsClean end = Unit
  FieldsClean (field k v fs) =
      ((v ≡ scalar redacted_text) ⊎ ¬ (NamesSecret k)) × IsClean v × FieldsClean fs

  pub ItemsClean : Items → Type 0
  ItemsClean nil = Unit
  ItemsClean (cons v vs) = IsClean v × ItemsClean vs

pub contains_complete : (s t : Text) → Contains s t → contains s t ≡ true
contains_complete s t (within a b e) = rw e (contains-append a s b)

pub contains_found : (s t : Text) → contains s t ≡ true → Contains s t
contains_found s t h = let (a, b, e) = contains_sound s t h in within a b e

suffix_complete : (ss : List Text) (t : Text) → OneOf EndsIn ss t → any_suffix ss t ≡ true
suffix_complete [] t h = absurd h
suffix_complete (s ∷ ss) t (inl (ending a e)) = rw e (ground (arith, has_suffix-append a s))
suffix_complete (s ∷ ss) t (inr h) = ground (arith, suffix_complete ss t h)

suffix_found : (ss : List Text) (t : Text) → any_suffix ss t ≡ true → OneOf EndsIn ss t
suffix_found [] t h = absurd (ground arith)
suffix_found (s ∷ ss) t h = elim (Bool-cases (has_suffix s t)) [
  | inl p ↦ let (a, e) = has_suffix_sound s t p in inl (ending a e)
  | inr p ↦ inr (suffix_found ss t (ground (arith, p)))
]

pub equal_complete : (ss : List Text) (t : Text) → OneOf (λ s k. k ≡ s) ss t → any_equal ss t ≡ true
equal_complete [] t h = absurd h
equal_complete (s ∷ ss) t (inl e) = rw e (ground (arith, text_eq_refl s))
equal_complete (s ∷ ss) t (inr h) = ground (arith, equal_complete ss t h)

pub equal_found : (ss : List Text) (t : Text) → any_equal ss t ≡ true → OneOf (λ s k. k ≡ s) ss t
equal_found [] t h = absurd (ground arith)
equal_found (s ∷ ss) t h = elim (Bool-cases (text_eq s t)) [
  | inl p ↦ inl (sym (text_eq_sound s t p))
  | inr p ↦ inr (equal_found ss t (ground (arith, p)))
]

pub any_of :
    (a b c d : Bool) → (a ≡ true) ⊎ (b ≡ true) ⊎ (c ≡ true) ⊎ (d ≡ true) → (a || b || c || d) ≡ true
any_of a b c d h = ground arith

pub which :
    (a b c d : Bool) → (a || b || c || d) ≡ true → (a ≡ true) ⊎ (b ≡ true) ⊎ (c ≡ true) ⊎ (d ≡ true)
which true b c d h = inl refl
which false true c d h = inr (inl refl)
which false false true d h = inr (inr (inl refl))
which false false false d h = inr (inr (inr h))

pub true-ne-false : true ≡ false → ⊥
true-ne-false h = cc

abbrev any_secret : Text → Bool
any_secret t =
    contains (codes "password") t
    || contains (codes "passwd") t
    || any_suffix secret_suffixes t
    || any_equal secret_keys t

secret_complete : (t : Text) → IsSecret t → any_secret t ≡ true
secret_complete t h =
    any_of (contains (codes "password") t) (contains (codes "passwd") t)
      (any_suffix secret_suffixes t) (any_equal secret_keys t) (found h)
  where
    found :
        IsSecret t
        → (contains (codes "password") t ≡ true)
          ⊎ (contains (codes "passwd") t ≡ true)
          ⊎ (any_suffix secret_suffixes t ≡ true)
          ⊎ (any_equal secret_keys t ≡ true)
    found (inl h) = inl (contains_complete (codes "password") t h)
    found (inr (inl h)) = inr (inl (contains_complete (codes "passwd") t h))
    found (inr (inr (inl h))) = inr (inr (inl (suffix_complete secret_suffixes t h)))
    found (inr (inr (inr h))) = inr (inr (inr (equal_complete secret_keys t h)))

IsSecret-found : (t : Text) → any_secret t ≡ true → IsSecret t
IsSecret-found t h = named (
    which (contains (codes "password") t) (contains (codes "passwd") t)
      (any_suffix secret_suffixes t) (any_equal secret_keys t) h)
  where
    named :
        (contains (codes "password") t ≡ true)
          ⊎ (contains (codes "passwd") t ≡ true)
          ⊎ (any_suffix secret_suffixes t ≡ true)
          ⊎ (any_equal secret_keys t ≡ true)
        → IsSecret t
    named (inl p) = inl (contains_found (codes "password") t p)
    named (inr (inl p)) = inr (inl (contains_found (codes "passwd") t p))
    named (inr (inr (inl p))) = inr (inr (inl (suffix_found secret_suffixes t p)))
    named (inr (inr (inr p))) = inr (inr (inr (equal_found secret_keys t p)))

-- The empty key is not a secret.
none_secret : any_secret [] ≡ false
unfolding contains has_suffix has_prefix
none_secret = refl

sensitive_any : (t : Text) → sensitive_json_key t ≡ any_secret t
unfolding sensitive_json_key
sensitive_any [] = sym none_secret
sensitive_any (c ∷ t) = refl

clean_field :
    (k : Text) (v : Value) (fs : Fields)
    → IsClean v
    → FieldsClean fs
    → FieldsClean (field k (if sensitive_json_key (lowered k) then scalar redacted_text else v) fs)
unfolding IsClean FieldsClean
clean_field k v fs h g = elim (Bool-cases (sensitive_json_key (lowered k))) [
  | inl t ↦ rw t (inl refl, tt, g)
  | inr t ↦ rw t (
    inr (λ n.
        true-ne-false (sym (secret_complete (lowered k) n) ∙ sym (sensitive_any (lowered k)) ∙ t)),
    h,
    g,
  )
]

masked :
    (k : Text) {v : Value}
    → (v ≡ scalar redacted_text) ⊎ ¬ (NamesSecret k)
    → NamesSecret k
    → scalar redacted_text ≡ v
masked k (inl e) n = sym e
masked k (inr c) n = absurd (c n)

kept_field :
    (k : Text) (v w : Value) (fs gs : Fields)
    → (v ≡ scalar redacted_text) ⊎ ¬ (NamesSecret k)
    → w ≡ v
    → gs ≡ fs
    → field k (if sensitive_json_key (lowered k) then scalar redacted_text else w) gs ≡ field k v fs
kept_field k v w fs gs m e g = elim (Bool-cases (sensitive_json_key (lowered k))) [
  | inl t ↦
      rw (t, g)
        (ap (λ x. field k x fs)
          (masked k m (IsSecret-found (lowered k) (sym (sensitive_any (lowered k)) ∙ t))))
  | inr t ↦ rw (t, g) (ap (λ x. field k x fs) e)
]

mutual
  unfolding redact redact_fields redact_items IsClean FieldsClean ItemsClean

  redacted-IsClean : (v : Value) → IsClean (redact v)
  redacted-IsClean (object fs) = redact_fields_clean fs
  redacted-IsClean (array vs) = redact_items_clean vs
  redacted-IsClean (scalar t) = tt

  redact_fields_clean : (fs : Fields) → FieldsClean (redact_fields fs)
  redact_fields_clean end = tt
  redact_fields_clean (field k v fs) =
      clean_field k (redact v) (redact_fields fs) (redacted-IsClean v) (redact_fields_clean fs)

  redact_items_clean : (vs : Items) → ItemsClean (redact_items vs)
  redact_items_clean nil = tt
  redact_items_clean (cons v vs) = (redacted-IsClean v, redact_items_clean vs)

mutual
  unfolding redact redact_fields redact_items IsClean FieldsClean ItemsClean

  clean_redact : (v : Value) → IsClean v → redact v ≡ v
  clean_redact (object fs) h = ap object (clean_redact_fields fs h)
  clean_redact (array vs) h = ap array (clean_redact_items vs h)
  clean_redact (scalar t) h = refl

  clean_redact_fields : (fs : Fields) → FieldsClean fs → redact_fields fs ≡ fs
  clean_redact_fields end h = refl
  clean_redact_fields (field k v fs) h =
      kept_field k v (redact v) fs (redact_fields fs) h.0 (clean_redact v h.1)
        (clean_redact_fields fs h.2)

  clean_redact_items : (vs : Items) → ItemsClean vs → redact_items vs ≡ vs
  clean_redact_items nil h = refl
  clean_redact_items (cons v vs) h =
      ap (λ x. cons x (redact_items vs)) (clean_redact v h.0)
      ∙ ap (cons v) (clean_redact_items vs h.1)

-- Redaction leaves exactly the values that hold no secret: at any depth, under each key that names a
-- secret (whatever its case and the space around it) there is the mask only. So what it returns
-- holds none, and what holds none is stored as it is.
pub redact-IsClean : (v : Value) → IsClean (redact v) × ((redact v ≡ v) ↔ IsClean v)
redact-IsClean v =
    (redacted-IsClean v, (λ e. subst IsClean e (redacted-IsClean v), λ h. clean_redact v h))
