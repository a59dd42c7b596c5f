-- ===== src/Store/Logic.antt =====
-- How a transaction's body is reasoned about: one rule for each construct, so that a proof follows
-- the body line by line. `Ensures m s Q E` speaks of a run of `m` on the tables `s`, whatever
-- statements the driver fails.
use consulting_revenue_platf.Prelude.{
  ◌≡◌, refl, ◌⊎◌, inl, inr, Bool, true, false, Option, none, some, List, [], ◌∷◌, ◌≢◌,
  if◌then◌else◌, Bool-cases,
}
use consulting_revenue_platf.Store.Rows.{Store}
use mathlib.Core.Path.{subst, sym}
use consulting_revenue_platf.Store.Transaction.{
  Error, sql_failed, Result, ok, err, Conn, Tx, next_fault, later_faults, pure, throw, stmt, query,
  exec, or_throw, ◌>>=◌, throw_if, lift, settle,
}

-- The driver failed a statement: the transaction can only be rolled back.
pub record IsFaulted (c : Conn) (e : Error) (c' : Conn) : Type 0 where
  pub is_sql : e ≡ sql_failed
  pub had_faults : ¬ (c.faults ≡ [])
  pub is_aborted : c'.aborted ≡ true

pub faulty : (l : List Bool) → next_fault l ≡ true → l ≢ []
faulty [] h e = cc
faulty (b ∷ l) h e = cc

-- A body that went through is not aborted, and its result and tables meet `Q`. One that returned an
-- error was failed by the driver, or its error, the aborted flag and the tables meet `E`.
abbrev pub Post :
    {A : Type 0}
    → (A → Store → Type 0)
    → (Error → Bool → Store → Type 0)
    → Conn
    → Result A × Conn
    → Type 0
Post Q E c (ok a, c') = (c'.aborted ≡ false) × (c.faults ≡ [] → c'.faults ≡ []) × Q a c'.store
Post Q E c (err e, c') =
    IsFaulted c e c' ⊎ (c.faults ≡ [] → c'.faults ≡ []) × E e c'.aborted c'.store

pub record Ensures {A : Type 0} (m : Tx A) (s : Store) (Q : A → Store → Type 0)
    (E : Error → Bool → Store → Type 0) : Type 0 where
  pub apply : (c : Conn) → c.store ≡ s → c.aborted ≡ false → Post Q E c (m c)

-- What a statement has done to the tables `s`, by whether it met a constraint.
abbrev pub Settled :
    {A : Type 0}
    → (A → Store → Type 0)
    → (Error → Bool → Store → Type 0)
    → Store
    → Result (A × Store)
    → Type 0
Settled Q E s (ok (a, s')) = Q a s'
Settled Q E s (err e) = E e true s

settle-Post :
    {A : Type 0} (Q : A → Store → Type 0) (E : Error → Bool → Store → Type 0)
    (r : Result (A × Store)) (c c' : Conn)
    → (c.faults ≡ [] → c'.faults ≡ [])
    → c'.aborted ≡ false
    → Settled Q E c'.store r
    → Post Q E c (settle r c')
settle-Post Q E (ok (a, s')) c c' f ea q = (ea, f, q)
settle-Post Q E (err e) c c' f ea q = inr (f, q)

-- A failed statement.
fault-Post :
    {A : Type 0} (Q : A → Store → Type 0) (E : Error → Bool → Store → Type 0) (c c' : Conn)
    → next_fault c.faults ≡ true
    → c'.aborted ≡ true
    → Post {A = A} Q E c (err sql_failed, c')
fault-Post Q E c c' t ea =
    inl (record { is_sql = refl; had_faults = faulty c.faults t; is_aborted = ea })

pub later_faults-nil : (l : List Bool) → l ≡ [] → later_faults l ≡ []
later_faults-nil [] h = refl
later_faults-nil (b ∷ l) h = cc

module _ {A : Type 0} {s : Store} {Q : A → Store → Type 0} {E : Error → Bool → Store → Type 0} where
  pub Ensures-pure : (a : A) → Q a s → Ensures (pure a) s Q E
  unfolding pure
  Ensures-pure a q = record { apply = λ c es ea. (ea, λ h. h, subst (Q a) (sym es) q) }

  pub Ensures-throw : (e : Error) → E e false s → Ensures (throw e) s Q E
  unfolding throw
  Ensures-throw e q = record {
    apply =
        λ c es ea. inr (λ h. h, subst (λ b. E e b c.store) (sym ea) (subst (E e false) (sym es) q));
  }

  pub Ensures-stmt : (f : Store → Result (A × Store)) → Settled Q E s (f s) → Ensures (stmt f) s Q E
  unfolding stmt
  Ensures-stmt f q = record {
    apply = λ c es ea. elim (Bool-cases (next_fault c.faults)) [
      | inl t ↦ rw (ea, t) (fault-Post Q E _ _ t refl)
      | inr t ↦
          rw (ea, t)
            (settle-Post Q E (f c.store) _ _ (later_faults-nil c.faults) refl
              (subst (λ x. Settled Q E x (f x)) (sym es) q))
    ];
  }

  pub Ensures-or_throw :
      (o : Option A) (e : Error)
      → (o ≡ none → E e false s)
      → ((a : A) → o ≡ some a → Q a s)
      → Ensures (or_throw o e) s Q E
  unfolding or_throw
  Ensures-or_throw none e k q = Ensures-throw e (k refl)
  Ensures-or_throw (some a) e k q = Ensures-pure a (q a refl)

  pub Ensures-lift :
      (r : Result A)
      → ((e : Error) → r ≡ err e → E e false s)
      → ((a : A) → r ≡ ok a → Q a s)
      → Ensures (lift r) s Q E
  unfolding lift
  Ensures-lift (ok a) k q = Ensures-pure a (q a refl)
  Ensures-lift (err e) k q = Ensures-throw e (k e refl)

  pub Ensures-if :
      (b : Bool) (m n : Tx A)
      → (b ≡ true → Ensures m s Q E)
      → (b ≡ false → Ensures n s Q E)
      → Ensures (if b then m else n) s Q E
  Ensures-if true m n h k = h refl
  Ensures-if false m n h k = k refl

-- A run that follows another.
pub Post-trans :
    {A : Type 0} (Q : A → Store → Type 0) (E : Error → Bool → Store → Type 0) (c c' : Conn)
    (r : Result A × Conn)
    → (c.faults ≡ [] → c'.faults ≡ [])
    → Post Q E c' r
    → Post Q E c r
Post-trans Q E c c' (ok a, d) f (ea, g, q) = (ea, λ h. g (f h), q)
Post-trans Q E c c' (err e, d) f (inl w) =
    inl (record {
      is_sql = w.is_sql;
      had_faults = λ h. w.had_faults (f h);
      is_aborted = w.is_aborted;
    })
Post-trans Q E c c' (err e, d) f (inr w) = inr (λ h. w.0 (f h), w.1)

Post-weaken :
    {A : Type 0} (Q R : A → Store → Type 0) (E F : Error → Bool → Store → Type 0) (c : Conn)
    (r : Result A × Conn)
    → ((a : A) (s : Store) → R a s → Q a s)
    → ((e : Error) (b : Bool) (s : Store) → F e b s → E e b s)
    → Post R F c r
    → Post Q E c r
Post-weaken Q R E F c (ok a, c') q w h = (h.0, h.1, q a c'.store h.2)
Post-weaken Q R E F c (err e, c') q w (inl h) = inl h
Post-weaken Q R E F c (err e, c') q w (inr h) = inr (h.0, w e c'.aborted c'.store h.1)

-- What is left after the first part of a sequence has gone through.
Post-bind :
    {A B : Type 0} (Q : B → Store → Type 0) (E : Error → Bool → Store → Type 0) (k : A → Tx B)
    (c : Conn) (r : Result A × Conn)
    → Post (λ a s'. Ensures (k a) s' Q E) E c r
    → Post Q E c (elim r.0 [ ok a ↦ k a r.1 | err e ↦ (err e, r.1) ])
Post-bind Q E k c (ok a, c') p = Post-trans Q E c c' (k a c') p.1 (p.2.apply c' refl p.0)
Post-bind Q E k c (err e, c') p = p

module _ {A B : Type 0} {s : Store} {Q : B → Store → Type 0}
    {E : Error → Bool → Store → Type 0} where
  pub Ensures-bind :
      (m : Tx A) (k : A → Tx B)
      → Ensures m s (λ a s'. Ensures (k a) s' Q E) E
      → Ensures (m >>= k) s Q E
  unfolding ◌>>=◌
  Ensures-bind m k h = record { apply = λ c es ea. Post-bind Q E k c (m c) (h.apply c es ea) }

module _ {B : Type 0} {s : Store} {Q : B → Store → Type 0} {E : Error → Bool → Store → Type 0} where
  -- The rules for the steps that the bodies are made of, each with the steps that follow.
  pub Ensures-query :
      {A : Type 0} (f : Store → A) (k : A → Tx B)
      → Ensures (k (f s)) s Q E
      → Ensures (query f >>= k) s Q E
  unfolding query
  Ensures-query f k h = Ensures-bind (query f) k (Ensures-stmt (λ x. ok (f x, x)) h)

  pub Ensures-exec :
      (f : Store → Store) (k : Unit {0} → Tx B)
      → Ensures (k tt) (f s) Q E
      → Ensures (exec f >>= k) s Q E
  unfolding exec
  Ensures-exec f k h = Ensures-bind (exec f) k (Ensures-stmt (λ x. ok (tt, f x)) h)

  pub Ensures-found :
      {A : Type 0} (o : Option A) (e : Error) (k : A → Tx B)
      → (o ≡ none → E e false s)
      → ((a : A) → o ≡ some a → Ensures (k a) s Q E)
      → Ensures (or_throw o e >>= k) s Q E
  Ensures-found o e k h q = Ensures-bind _ k (Ensures-or_throw o e h q)

  pub Ensures-lifted :
      {A : Type 0} (r : Result A) (k : A → Tx B)
      → ((e : Error) → r ≡ err e → E e false s)
      → ((a : A) → r ≡ ok a → Ensures (k a) s Q E)
      → Ensures (lift r >>= k) s Q E
  Ensures-lifted r k h q = Ensures-bind _ k (Ensures-lift r h q)

  -- A statement that can meet a constraint.
  pub Ensures-checked :
      {A : Type 0} (f : Store → Result (A × Store)) (k : A → Tx B)
      → Settled (λ a s'. Ensures (k a) s' Q E) E s (f s)
      → Ensures (stmt f >>= k) s Q E
  Ensures-checked f k h = Ensures-bind (stmt f) k (Ensures-stmt f h)

  -- Weaker promises.
  pub Ensures-weaken :
      {R : B → Store → Type 0} {F : Error → Bool → Store → Type 0} (m : Tx B)
      → ((b : B) (s' : Store) → R b s' → Q b s')
      → ((e : Error) (t : Bool) (s' : Store) → F e t s' → E e t s')
      → Ensures m s R F
      → Ensures m s Q E
  Ensures-weaken m q w h = record {
    apply = λ c es ea. Post-weaken _ _ _ _ c (m c) q w (h.apply c es ea);
  }

  pub Ensures-throw_if :
      (b : Bool) (e : Error) (k : Unit {0} → Tx B)
      → (b ≡ true → E e false s)
      → (b ≡ false → Ensures (k tt) s Q E)
      → Ensures (throw_if b e >>= k) s Q E
  unfolding throw_if
  Ensures-throw_if b e k h q =
      Ensures-bind _ k (Ensures-if b _ _ (λ t. Ensures-throw e (h t)) (λ t. Ensures-pure tt (q t)))

-- A last statement.
module _ {s : Store} {Q : Unit {0} → Store → Type 0} {E : Error → Bool → Store → Type 0} where
  pub Ensures-exec_last : (f : Store → Store) → Q tt (f s) → Ensures (exec f) s Q E
  unfolding exec
  Ensures-exec_last f h = Ensures-stmt (λ x. ok (tt, f x)) h

  pub Ensures-throw_if_last :
      (b : Bool) (e : Error)
      → (b ≡ true → E e false s)
      → (b ≡ false → Q tt s)
      → Ensures (throw_if b e) s Q E
  unfolding throw_if
  Ensures-throw_if_last b e h q =
      Ensures-if b _ _ (λ t. Ensures-throw e (h t)) (λ t. Ensures-pure tt (q t))
