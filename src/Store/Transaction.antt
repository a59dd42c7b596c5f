-- ===== src/Store/Transaction.antt =====
-- A transaction (internal/db/tx.go): statements in sequence over the tables, any of which the driver
-- may fail. After a failed statement PostgreSQL refuses every later one of the same transaction.
use consulting_revenue_platf.Prelude.{
  Bool, true, false, ◌||◌, Option, none, some, List, [], ◌∷◌, if◌then◌else◌,
}
use consulting_revenue_platf.Store.Rows.{Store}

-- The errors that the repository functions return. `sql_failed` is an error of the driver or of a
-- constraint; what `fmt.Errorf` wraps with `%w` is the error that `errors.Is` finds.
pub data Error : Type 0 where
  sql_failed : Error
  unsupported_currency amount_required invalid_amount too_many_decimals no_decimals : Error
  time_entry_not_found invalid_time_entry_transition reject_reason_required : Error
  time_entry_locked minutes_out_of_range negative_rate : Error
  invoice_not_found invoice_not_sendable invoice_immutable : Error
  no_eligible_time_entries line_amount_overflow invoice_total_overflow : Error
  description_required bad_quantity negative_unit_amount : Error
  payment_not_found payment_exists : Error
  reconcile_not_issued reconcile_no_payment reconcile_link_mismatch : Error
  reconcile_amount_mismatch reconcile_currency_mismatch : Error
  reconcile_metadata_mismatch reconcile_cannot_resolve bad_invoice_id : Error
  refund_input_missing refund_exceeds_remaining : Error
  no_rows no_pending_webhook malformed_payload no_charge_amount : Error
  membership_not_found duplicate_membership last_owner_protected invalid_role : Error
  name_required billing_email_required invalid_billing_mode : Error
  client_not_found project_not_found project_archived : Error
  organization_not_found user_not_found duplicate_email : Error

pub data Result {ℓ} (A : Type ℓ) : Type ℓ where
  ok : A → Result A
  err : Error → Result A

-- An open transaction: the tables as it sees them, what the driver will do with its next
-- statements (`true` fails one; none are failed past the end), and whether one has failed.
pub record Conn : Type 0 where
  pub store : Store
  pub faults : List Bool
  pub aborted : Bool

-- A body that runs in a transaction.
abbrev pub Tx : Type 0 → Type 0
Tx A = Conn → Result A × Conn

abbrev pub next_fault : List Bool → Bool
next_fault [] = false
next_fault (b ∷ bs) = b

abbrev pub later_faults : List Bool → List Bool
later_faults [] = []
later_faults (b ∷ bs) = bs

module _ {A : Type 0} where
  unfoldable pub pure : A → Tx A
  pure a c = (ok a, c)

  unfoldable pub throw : Error → Tx A
  throw e c = (err e, c)

  -- How the result of a statement ends it: a violated constraint fails it and changes nothing.
  abbrev pub settle : Result (A × Store) → Conn → Result A × Conn
  settle (ok (a, s)) c = (ok a, record c { store = s })
  settle (err e) c = (err e, record c { aborted = true })

  -- One SQL statement.
  unfoldable pub stmt : (Store → Result (A × Store)) → Tx A
  stmt f c =
      let c' = record c { faults = later_faults c.faults } in
      if c.aborted || next_fault c.faults
      then (err sql_failed, record c' { aborted = true })
      else settle (f c.store) c'

  -- A statement that only reads.
  unfoldable pub query : (Store → A) → Tx A
  unfolding stmt
  query f = stmt (λ s. ok (f s, s))

  -- The row that a query found, or the error for `sql.ErrNoRows`.
  unfoldable pub or_throw : Option A → Error → Tx A
  unfolding pure throw
  or_throw none e = throw e
  or_throw (some a) e = pure a

module _ {A : Type 0} where
  -- A computation outside the database that may fail.
  unfoldable pub lift : Result A → Tx A
  unfolding pure throw
  lift (ok a) = pure a
  lift (err e) = throw e

-- A statement that changes tables and meets no constraint.
unfoldable pub exec : (Store → Store) → Tx (Unit {0})
unfolding stmt
exec f = stmt (λ s. ok (tt, f s))

infixl 5 ◌>>=◌ ◌>>◌
unfoldable pub ◌>>=◌ : {A B : Type 0} → Tx A → (A → Tx B) → Tx B
◌>>=◌ m f c = let (r, c') = m c in elim r [ ok a ↦ f a c' | err e ↦ (err e, c') ]

abbrev pub ◌>>◌ : {A B : Type 0} → Tx A → Tx B → Tx B
m >> k = m >>= λ _. k

unfoldable pub throw_if : Bool → Error → Tx (Unit {0})
unfolding pure throw
throw_if b e = if b then throw e else pure tt

-- A run whose error the code goes on with.
unfoldable pub attempt : {A : Type 0} → Tx A → Tx (Result A)
attempt m c = let (r, c') = m c in (ok r, c')

-- The pool: the committed tables, and what the driver will do with the next calls.
pub record Db : Type 0 where
  pub store : Store
  pub faults : List Bool

module _ {A : Type 0} where
  -- How a transaction ends: it is rolled back on an error, and else committed, which can fail too.
  abbrev pub finish : Store → Result A × Conn → Result A × Db
  finish old (err e, c) = (err e, record { store = old; faults = c.faults })
  finish old (ok a, c) =
      if c.aborted || next_fault c.faults
      then (err sql_failed, record { store = old; faults = later_faults c.faults })
      else (ok a, record { store = c.store; faults = later_faults c.faults })

  -- `RunInTx`: begin, run the body, and roll back or commit.
  unfoldable pub run_in_tx : Tx A → Db → Result A × Db
  run_in_tx m d =
      let rest = later_faults d.faults in
      if next_fault d.faults
      then (err sql_failed, record { store = d.store; faults = rest })
      else finish d.store (m (record { store = d.store; faults = rest; aborted = false }))

  -- One statement on the pool, with no transaction around it: it is committed by itself.
  unfoldable pub auto : Tx A → Db → Result A × Db
  auto m d =
      let (r, c) = m (record { store = d.store; faults = d.faults; aborted = false }) in
      (r, record { store = c.store; faults = c.faults })

-- What a run on a concrete database computes with: a test names it on its `unfolding` line.
unfoldable pub tx_steps : Unit {0}
unfolding pure throw stmt query exec or_throw throw_if lift ◌>>=◌ attempt run_in_tx auto
tx_steps = tt
