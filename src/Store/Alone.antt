-- ===== src/Store/Alone.antt =====
-- How operations on the pool are reasoned about where no other connection writes in between, whatever
-- statements the driver fails: `Alone m s Q` speaks of a run of `m` on the tables `s` that goes through.
use consulting_revenue_platf.Prelude.{
  ◌≡◌, refl, ◌∙◌, Bool, true, false, List, [], ◌∷◌, Option, none, some, if◌then◌else◌,
}
use mathlib.Core.Path.{subst, sym}
use consulting_revenue_platf.Store.Rows.{Store}
use consulting_revenue_platf.Store.Transaction
use consulting_revenue_platf.Store.Transaction.{
  Error, sql_failed, Result, ok, err, Conn, Db, next_fault, later_faults, auto,
}
use consulting_revenue_platf.Store.Pool.{
  Pool, Op, interfere, later_others, waiting, onwards, pure, throw, ended, statement, query,
  or_throw, ◌>>=◌, throw_if, constrained, on_pool,
}

abbrev pub Went : {A : Type 0} → (A → Store → Type 0) → Result A × Pool → Type 0
Went Q (ok a, p) = (p.others ≡ []) × Q a p.store
Went Q (err e, p) = p.others ≡ []

pub record Alone {A : Type 0} (m : Op A) (s : Store) (Q : A → Store → Type 0) : Type 0 where
  pub apply : (p : Pool) → p.store ≡ s → p.others ≡ [] → Went Q (m p)

abbrev pub Settles : {A : Type 0} → (A → Store → Type 0) → Result (A × Store) → Type 0
Settles Q (ok (a, s)) = Q a s
Settles Q (err e) = Unit

pub interfere-nil : (os : List (Store → Store)) (s : Store) → os ≡ [] → interfere os s ≡ s
interfere-nil [] s h = refl
interfere-nil (o ∷ os) s h = cc

pub later_others-nil : (os : List (Store → Store)) → os ≡ [] → later_others os ≡ []
later_others-nil [] h = refl
later_others-nil (o ∷ os) h = cc

module _ {A : Type 0} (Q : A → Store → Type 0) where
  ended-Went :
      (p : Pool) (s : Store) (r : Result (A × Store))
      → p.others ≡ []
      → Settles Q r
      → Went Q (ended p s r)
  ended-Went p s (ok (a, s')) o q = (o, q)
  ended-Went p s (err e) o q = o

  pub fault-Settles :
      (b : Bool) (r : Result (A × Store))
      → Settles Q r
      → Settles Q (if b then err sql_failed else r)
  fault-Settles true r q = tt
  fault-Settles false r q = q

module _ {A : Type 0} (Q : A → Store → Type 0) where
  pub Settles-constrained :
      (b : Bool) (a : A) (s : Store) → (b ≡ true → Q a s) → Settles Q (constrained b a s)
  unfolding constrained
  Settles-constrained true a s h = h refl
  Settles-constrained false a s h = tt

module _ {A : Type 0} {s : Store} {Q : A → Store → Type 0} where
  pub Alone-statement : (f : Store → Result (A × Store)) → Settles Q (f s) → Alone (statement f) s Q
  unfolding statement
  Alone-statement f q = record {
    apply = λ p h o.
        let e : s ≡ interfere p.others p.store = sym h ∙ sym (interfere-nil p.others p.store o) in
        ended-Went Q (waiting p) (interfere p.others p.store) _ (later_others-nil p.others o)
          (fault-Settles Q (next_fault p.faults) _ (subst (λ x. Settles Q (f x)) e q));
  }

  pub Alone-constrained :
      (g : Store → Bool) (a : Store → A) (f : Store → Store)
      → (g s ≡ true → Q (a s) (f s))
      → Alone (statement (λ x. constrained (g x) (a x) (f x))) s Q
  Alone-constrained g a f h = Alone-statement _ (Settles-constrained Q (g s) (a s) (f s) h)

  pub Alone-pure : (a : A) → Q a s → Alone (pure a) s Q
  unfolding pure
  Alone-pure a q = record { apply = λ p h o. (o, subst (Q a) (sym h) q) }

  pub Alone-or_throw :
      (o : Option A) (e : Error) → ((a : A) → o ≡ some a → Q a s) → Alone (or_throw o e) s Q
  unfolding or_throw throw
  Alone-or_throw none e q = record { apply = λ p h o. o }
  Alone-or_throw (some a) e q = Alone-pure a (q a refl)

module _ {s : Store} {Q : Unit {0} → Store → Type 0} where
  pub Alone-throw_if : (b : Bool) (e : Error) → (b ≡ false → Q tt s) → Alone (throw_if b e) s Q
  unfolding throw_if throw
  Alone-throw_if true e q = record { apply = λ p h o. o }
  Alone-throw_if false e q = Alone-pure tt (q refl)

onwards-Went :
    {A B : Type 0} (Q : B → Store → Type 0) (k : A → Op B) (r : Result A × Pool)
    → Went (λ a s'. Alone (k a) s' Q) r
    → Went Q (onwards k r)
onwards-Went Q k (ok a, p) h = h.1.apply p refl h.0
onwards-Went Q k (err e, p) h = h

module _ {A B : Type 0} {s : Store} {Q : B → Store → Type 0} where
  pub Alone-bind :
      (m : Op A) (k : A → Op B) → Alone m s (λ a s'. Alone (k a) s' Q) → Alone (m >>= k) s Q
  unfolding ◌>>=◌
  Alone-bind m k h = record { apply = λ p e o. onwards-Went Q k (m p) (h.apply p e o) }

  pub Alone-query : (f : Store → A) (k : A → Op B) → Alone (k (f s)) s Q → Alone (query f >>= k) s Q
  unfolding query
  Alone-query f k h = Alone-bind _ k (Alone-statement (λ x. ok (f x, x)) h)

module _ {A : Type 0} {Q R : A → Store → Type 0} where
  weaker : (r : Result A × Pool) → ((a : A) (x : Store) → Q a x → R a x) → Went Q r → Went R r
  weaker (ok a, p) w h = (h.0, w a p.store h.1)
  weaker (err e, p) w h = h

  pub Alone-weaken :
      {m : Op A} {s : Store} → ((a : A) (x : Store) → Q a x → R a x) → Alone m s Q → Alone m s R
  Alone-weaken {m} w h = record { apply = λ p e o. weaker (m p) w (h.apply p e o) }

-- A function of one statement on the pool.
abbrev pub Left : {A : Type 0} → (A → Store → Type 0) → Result A × Db → Type 0
Left Q (ok a, d) = Q a d.store
Left Q (err e, d) = Unit

module _ {A : Type 0} (Q : A → Store → Type 0) where
  Left-Went :
      (others : List (Store → Store)) (writes : List (Store × Store)) (r : Result A × Db)
      → others ≡ []
      → Left Q r
      → Went Q
          (r.0, record { store = r.1.store; faults = r.1.faults; others = others; writes = writes })
  Left-Went os ws (ok a, d) o q = (o, q)
  Left-Went os ws (err e, d) o q = o

  pub Alone-on_pool :
      (f : Db → Result A × Db) (s : Store)
      → ((faults : List Bool) → Left Q (f (record { store = s; faults = faults })))
      → Alone (on_pool f) s Q
  unfolding on_pool
  Alone-on_pool f s q = record {
    apply = λ p h o.
        let e : s ≡ interfere p.others p.store = sym h ∙ sym (interfere-nil p.others p.store o) in
        Left-Went _ _ (f (record { store = interfere p.others p.store; faults = p.faults }))
          (later_others-nil p.others o)
          (subst (λ x. Left Q (f (record { store = x; faults = p.faults }))) e (q p.faults));
  }

-- A query on the pool, with what is computed of its rows.
module _ {A B : Type 0} (f : Store → A) (g : A → B) (s : Store) where
  read_row :
      (faults : List Bool) (b : Bool)
      → let c : Conn = record { store = s; faults = later_faults faults; aborted = false } in
        let r : Result A × Conn =
          if b then (err sql_failed, record c { aborted = true }) else (ok (f s), c) in
        let q : Result B × Conn = elim r.0 [
          | ok a ↦ Transaction.pure (g a) r.1
          | err y ↦ (err y, r.1)
        ] in
        Left
          (λ x s'. (s' ≡ s) × (x ≡ g (f s)))
          (q.0, record { store = q.1.store; faults = q.1.faults })
  unfolding Transaction.pure
  read_row faults true = tt
  read_row faults false = (refl, refl)

  pub auto-Left :
      (faults : List Bool)
      → Left
          (λ x s'. (s' ≡ s) × (x ≡ g (f s)))
          (auto
            (Transaction.◌>>=◌ (Transaction.query f) (λ a. Transaction.pure (g a)))
            (record { store = s; faults = faults }))
  unfolding auto Transaction.query Transaction.◌>>=◌
  auto-Left faults = read_row faults (next_fault faults)
