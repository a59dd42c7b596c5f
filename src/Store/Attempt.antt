-- ===== src/Store/Attempt.antt =====
-- How a body is reasoned about that goes on after an error: as PostgreSQL refuses every statement after
-- a failed one, what follows can only fail then.
use consulting_revenue_platf.Prelude.{
  ◌≡◌, refl, ◌⊎◌, inl, inr, ap, ◌∙◌, Bool, true, false, [], arith, Bool-cases,
}
use consulting_revenue_platf.Store.Rows.{Store}
use consulting_revenue_platf.Store.Transaction.{
  Error, sql_failed, Result, ok, err, Conn, Tx, stmt, ◌>>=◌, attempt,
}
use consulting_revenue_platf.Store.Logic.{IsFaulted, Post, Ensures, Post-trans, later_faults-nil}

-- A run on an aborted transaction fails.
abbrev pub Refuses : {B : Type 0} → Conn → Result B × Conn → Type 0
Refuses c r = (r.0 ≡ err sql_failed) × (r.1.aborted ≡ true) × (c.faults ≡ [] → r.1.faults ≡ [])

pub record Halts {B : Type 0} (m : Tx B) : Type 0 where
  pub refuses : (c : Conn) → c.aborted ≡ true → Refuses c (m c)

pub stmt-Halts :
    {A B : Type 0} (f : Store → Result (A × Store)) (k : A → Tx B) → Halts (stmt f >>= k)
unfolding stmt ◌>>=◌
stmt-Halts f k = record { refuses = λ c h. rw h (refl, refl, later_faults-nil c.faults) }

bound :
    {A B : Type 0} (k : A → Tx B) (c : Conn) (r : Result A × Conn)
    → Refuses c r
    → Refuses {B = B} c (elim r.0 [ ok a ↦ k a r.1 | err e ↦ (err e, r.1) ])
bound k c (ok a, c') h = absurd (ground arith)
bound k c (err e, c') h = (ground arith, h.1, h.2)

pub bind-Halts : {A B : Type 0} (m : Tx A) (k : A → Tx B) → Halts m → Halts (m >>= k)
unfolding ◌>>=◌
bind-Halts m k h = record { refuses = λ c t. bound k c (m c) (h.refuses c t) }

module _ {A B : Type 0} (k : Result A → Tx B) (Q : B → Store → Type 0)
    (E : Error → Bool → Store → Type 0) (halts : (e : Error) → Halts (k (err e)))
    (q : (s : Store) → E sql_failed true s) where
  refused-fault :
      (c c' : Conn) (e : Error) (r : Result B × Conn)
      → IsFaulted c e c'
      → Refuses c' r
      → Post Q E c r
  refused-fault c c' e (ok b, d) w h = absurd (ground arith)
  refused-fault c c' e (err x, d) w h =
      inl (record { is_sql = ground arith; had_faults = w.had_faults; is_aborted = h.1 })

  halted-Post :
      (c c' : Conn) (r : Result B × Conn)
      → (c.faults ≡ [] → c'.faults ≡ [])
      → Refuses c' r
      → Post Q E c r
  halted-Post c c' (ok b, d) f h = absurd (ground arith)
  halted-Post c c' (err x, d) f h =
      let e : x ≡ sql_failed = ground arith in inr (λ n. h.2 (f n), rw (e, h.1) (q d.store))

  attempt-Post :
      (c : Conn) (r : Result A × Conn)
      → Post
          (λ a s'. Ensures (k (ok a)) s' Q E)
          (λ e b s'. (b ≡ true) ⊎ Ensures (k (err e)) s' Q E)
          c
          r
      → Post Q E c (k r.0 r.1)
  attempt-Post c (ok a, c') p = Post-trans Q E c c' (k (ok a) c') p.1 (p.2.apply c' refl p.0)
  attempt-Post c (err e, c') (inl w) =
      refused-fault c c' e (k (err e) c') w ((halts e).refuses c' w.is_aborted)
  attempt-Post c (err e, c') (inr (f, inl t)) =
      halted-Post c c' (k (err e) c') f ((halts e).refuses c' t)
  attempt-Post c (err e, c') (inr (f, inr h)) = elim (Bool-cases (c'.aborted)) [
    | inl t ↦ halted-Post c c' (k (err e) c') f ((halts e).refuses c' t)
    | inr t ↦ Post-trans Q E c c' (k (err e) c') f (h.apply c' refl t)
  ]

  -- `m` is tried, and `k` goes on with its result; after an error it meets tables that are still
  -- sound, or an aborted transaction.
  pub Ensures-attempt :
      (m : Tx A) (s : Store)
      → Ensures m s
          (λ a s'. Ensures (k (ok a)) s' Q E)
          (λ e b s'. (b ≡ true) ⊎ Ensures (k (err e)) s' Q E)
      → Ensures (attempt m >>= k) s Q E
  unfolding attempt ◌>>=◌
  Ensures-attempt m s h = record { apply = λ c es ea. attempt-Post c (m c) (h.apply c es ea) }

-- A run on the tables `s` in which no statement failed returned the error.
abbrev pub Refused : {A : Type 0} → Tx A → Store → Error → Type 0
Refused m s e = (c : Conn) × (c.store ≡ s) × ((m c).0 ≡ err e) × ((m c).1.aborted ≡ false)

module _ {A : Type 0} (m : Tx A) (s : Store) (Q : A → Store → Type 0)
    (E : Error → Bool → Store → Type 0) where
  Refused-Post :
      (c : Conn) (r : Result A × Conn)
      → c.store ≡ s
      → m c ≡ r
      → Post Q E c r
      → Post Q (λ e b s'. E e b s' × ((b ≡ true) ⊎ Refused m s e)) c r
  Refused-Post c (ok a, c') es k p = p
  Refused-Post c (err e, c') es k (inl w) = inl w
  Refused-Post c (err e, c') es k (inr (f, x)) = elim (Bool-cases (c'.aborted)) [
    | inl t ↦ inr (f, (x, inl t))
    | inr t ↦ inr (f, (x, inr (c, es, ap (λ y. y.0) k, ap (λ y. y.1.aborted) k ∙ t)))
  ]

  -- What is ensured of an error, with the run that returned it.
  pub Ensures-Refused :
      Ensures m s Q E → Ensures m s Q (λ e b s'. E e b s' × ((b ≡ true) ⊎ Refused m s e))
  Ensures-Refused h = record { apply = λ c es ea. Refused-Post c (m c) es refl (h.apply c es ea) }
