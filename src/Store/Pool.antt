-- ===== src/Store/Pool.antt =====
-- A handler's statements on the pool (`db.QueryRowContext` and `db.ExecContext` outside a transaction):
-- each is committed by itself, and other connections may change the tables before any of them.
use consulting_revenue_platf.Prelude.{Bool, List, [], ◌∷◌, if◌then◌else◌, Option, none, some}
use consulting_revenue_platf.Store.Rows.{Store}
use consulting_revenue_platf.Store.Transaction.{
  Error, sql_failed, Result, ok, err, next_fault, later_faults, Db,
}

-- The tables, what the driver will do, what other connections commit before each of the statements
-- to come (nothing past the end), and the tables before and after each statement made so far: a
-- history that no operation reads.
pub record Pool : Type 0 where
  pub store : Store
  pub faults : List Bool
  pub others : List (Store → Store)
  pub writes : List (Store × Store)

abbrev pub Op : Type 0 → Type 0
Op A = Pool → Result A × Pool

abbrev pub interfere : List (Store → Store) → Store → Store
interfere [] s = s
interfere (o ∷ os) s = o s

abbrev pub later_others : List (Store → Store) → List (Store → Store)
later_others [] = []
later_others (o ∷ os) = os

abbrev pub waiting : Pool → Pool
waiting p = record p { faults = later_faults p.faults; others = later_others p.others }

module _ {A : Type 0} where
  unfoldable pub pure : A → Op A
  pure a p = (ok a, p)

  unfoldable pub throw : Error → Op A
  throw e p = (err e, p)

  -- A statement whose constraints are met, or not.
  unfoldable pub constrained : Bool → A → Store → Result (A × Store)
  constrained met a s = if met then ok (a, s) else err sql_failed

  -- How a statement on the tables `s` ends.
  abbrev pub ended : Pool → Store → Result (A × Store) → Result A × Pool
  ended p s (ok (a, s')) = (ok a, record p { store = s'; writes = (s, s') ∷ p.writes })
  ended p s (err e) = (err e, record p { store = s; writes = (s, s) ∷ p.writes })

  -- One statement, which meets what the others have committed.
  unfoldable pub statement : (Store → Result (A × Store)) → Op A
  statement f p =
      let s = interfere p.others p.store in
      ended (waiting p) s (if next_fault p.faults then err sql_failed else f s)

  -- A statement that only reads.
  unfoldable pub query : (Store → A) → Op A
  unfolding statement
  query f = statement (λ s. ok (f s, s))

  -- The row that a query found, or the error for `sql.ErrNoRows`.
  unfoldable pub or_throw : Option A → Error → Op A
  unfolding pure throw
  or_throw none e = throw e
  or_throw (some a) e = pure a

  -- A computation outside the database that may fail.
  unfoldable pub lift : Result A → Op A
  unfolding pure throw
  lift (ok a) = pure a
  lift (err e) = throw e

-- What follows is run if there was no error.
abbrev pub onwards : {A B : Type 0} → (A → Op B) → Result A × Pool → Result B × Pool
onwards k (ok a, p) = k a p
onwards k (err e, p) = (err e, p)

-- A function of one statement on the pool, as it is run alone.
unfoldable pub on_pool : {A : Type 0} → (Db → Result A × Db) → Op A
on_pool f p =
    let s = interfere p.others p.store in
    let (r, d) = f (record { store = s; faults = p.faults }) in
    (
      r,
      record {
        store = d.store;
        faults = d.faults;
        others = later_others p.others;
        writes = (s, d.store) ∷ p.writes;
      },
    )

infixl 5 ◌>>=◌ ◌>>◌
unfoldable pub ◌>>=◌ : {A B : Type 0} → Op A → (A → Op B) → Op B
◌>>=◌ m f p = onwards f (m p)

abbrev pub ◌>>◌ : {A B : Type 0} → Op A → Op B → Op B
m >> k = m >>= λ _. k

unfoldable pub throw_if : Bool → Error → Op (Unit {0})
unfolding pure throw
throw_if b e = if b then throw e else pure tt

-- What a run on concrete tables computes with: a test names it on its `unfolding` line.
unfoldable pub pool_steps : Unit {0}
unfolding pure throw constrained statement query or_throw lift on_pool ◌>>=◌ throw_if
pool_steps = tt
