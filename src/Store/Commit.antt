-- ===== src/Store/Commit.antt =====
-- How a transaction ends, and a `SELECT` on the pool.
use consulting_revenue_platf.Prelude.{
  ◌≡◌, ◌≢◌, refl, ◌⊎◌, inl, inr, Bool, true, false, Option, none, some, [], if◌then◌else◌,
  Bool-cases,
}
use mathlib.Core.Path.{sym}
use consulting_revenue_platf.Store.Rows.{Store}
use consulting_revenue_platf.Store.Transaction.{
  Error, sql_failed, Result, ok, err, Conn, Tx, next_fault, later_faults, query, or_throw, ◌>>=◌,
  Db, finish, run_in_tx, auto,
}
use consulting_revenue_platf.Store.Logic.{Post, Ensures, faulty, later_faults-nil}

-- What a transaction has done: it is committed with what its body ensures, or the tables are the old
-- ones, and a call was failed by the driver or the error is one that the body ensures.
abbrev pub Outcome :
    {A : Type 0}
    → (A → Store → Type 0)
    → (Error → Bool → Store → Type 0)
    → Db
    → Result A × Db
    → Type 0
Outcome Q E d (ok a, d') = Q a d'.store
Outcome Q E d (err e, d') =
    (d'.store ≡ d.store)
    × (((e ≡ sql_failed) × (d.faults ≢ [])) ⊎ ((b : Bool) × (s : Store) × E e b s))

module _ {A : Type 0} (Q : A → Store → Type 0) (E : Error → Bool → Store → Type 0) where
  commit-Outcome :
      (d : Db) (b : Bool) (a : A) (c : Conn)
      → b ≡ next_fault c.faults
      → (d.faults ≡ [] → c.faults ≡ [])
      → Q a c.store
      → Outcome Q E d (
          if b
          then (err sql_failed, record { store = d.store; faults = later_faults c.faults })
          else (ok a, record { store = c.store; faults = later_faults c.faults }))
  commit-Outcome d true a c t f q = (refl, inl (refl, λ h. faulty c.faults (sym t) (f h)))
  commit-Outcome d false a c t f q = q

  finish-Outcome :
      (d : Db) (c : Conn) (r : Result A × Conn)
      → (d.faults ≡ [] → c.faults ≡ [])
      → Post Q E c r
      → Outcome Q E d (finish d.store r)
  finish-Outcome d c (err e, c') f (inl w) = (refl, inl (w.is_sql, λ h. w.had_faults (f h)))
  finish-Outcome d c (err e, c') f (inr w) = (refl, inr (c'.aborted, c'.store, w.1))
  finish-Outcome d c (ok a, c') f p =
      rw p.0 (commit-Outcome d (next_fault c'.faults) a c' refl (λ h. p.1 (f h)) p.2)

  pub run_in_tx-Outcome :
      (m : Tx A) (d : Db) → Ensures m d.store Q E → Outcome Q E d (run_in_tx m d)
  unfolding run_in_tx
  run_in_tx-Outcome m d h = elim (Bool-cases (next_fault d.faults)) [
    | inl t ↦ rw t (refl, inl (refl, faulty d.faults t))
    | inr t ↦ rw t (
        finish-Outcome d
          (record { store = d.store; faults = later_faults d.faults; aborted = false }) _
          (later_faults-nil d.faults) (h.apply _ refl refl))
  ]

-- How a `SELECT` of one row on the pool ends: with the row, with the error for no row, or failed by
-- the driver; the tables are as they were.
abbrev pub Fetched : {A : Type 0} → Option A → Error → Db → Result A × Db → Type 0
Fetched o e d (ok a, d') = (o ≡ some a) × (d'.store ≡ d.store)
Fetched o e d (err x, d') =
    (((x ≡ sql_failed) × (next_fault d.faults ≡ true)) ⊎ ((x ≡ e) × (o ≡ none)))
    × (d'.store ≡ d.store)

module _ {A : Type 0} (f : Store → Option A) (e : Error) (d : Db) where
  fetch_row :
      (o : Option A) (b : Bool)
      → o ≡ f d.store
      → b ≡ next_fault d.faults
      → let c : Conn = record {
        store = d.store;
        faults = later_faults d.faults;
        aborted = false;
      } in
        let r : Result (Option A) × Conn =
          if b then (err sql_failed, record c { aborted = true }) else (ok o, c) in
        let q : Result A × Conn = elim r.0 [ ok a ↦ or_throw a e r.1 | err y ↦ (err y, r.1) ] in
        Fetched (f d.store) e d (q.0, record { store = q.1.store; faults = q.1.faults })
  unfolding or_throw
  fetch_row o true p t = (inl (refl, sym t), refl)
  fetch_row none false p t = (inr (refl, sym p), refl)
  fetch_row (some a) false p t = (sym p, refl)

  pub auto-Fetched : Fetched (f d.store) e d (auto (query f >>= λ row. or_throw row e) d)
  unfolding auto query ◌>>=◌
  auto-Fetched = fetch_row (f d.store) (next_fault d.faults) refl refl
