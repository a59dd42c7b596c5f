-- ===== src/Store/Rely.antt =====
-- How operations on the pool are reasoned about, whatever the other connections commit in between.
-- `Guarantees G m`: each statement of `m` changes the tables by a step of `G`.
-- `Keeps I m Q`: if the others keep the invariant `I`, `m` keeps it, and its result meets `Q`.
use consulting_revenue_platf.Prelude.{
  ◌≡◌, refl, Bool, true, false, List, [], ◌∷◌, if◌then◌else◌, All, Option, none, some,
}
use consulting_revenue_platf.Store.Rows.{Store}
use consulting_revenue_platf.Store.Transaction.{Error, sql_failed, Result, ok, err, next_fault}
use consulting_revenue_platf.Store.Pool.{
  Pool, Op, interfere, later_others, waiting, onwards, pure, throw, ended, statement, query,
  or_throw, lift, ◌>>=◌, throw_if, constrained,
}

module _ (G : Store → Store → Type 0) where
  pub record Guarantees {A : Type 0} (m : Op A) : Type 0 where
    pub apply : (p : Pool) → All (λ w. G w.0 w.1) p.writes → All (λ w. G w.0 w.1) (m p).1.writes

  -- A statement that fails leaves the tables.
  abbrev pub Changes : {A : Type 0} → Store → Result (A × Store) → Type 0
  Changes s (ok (a, s')) = G s s'
  Changes s (err e) = Unit

  pub Changes-constrained :
      {A : Type 0} (s : Store) (b : Bool) (a : A) (s' : Store)
      → (b ≡ true → G s s')
      → Changes s (constrained b a s')
  unfolding constrained
  Changes-constrained s true a s' h = h refl
  Changes-constrained s false a s' h = tt

  module _ (same : (s : Store) → G s s) where
    module _ {A : Type 0} where
      pub Guarantees-pure : (a : A) → Guarantees (pure a)
      unfolding pure
      Guarantees-pure a = record { apply = λ p h. h }

      pub Guarantees-throw : (e : Error) → Guarantees {A = A} (throw e)
      unfolding throw
      Guarantees-throw e = record { apply = λ p h. h }

      ended-writes :
          (p : Pool) (s : Store) (r : Result (A × Store))
          → Changes s r
          → All (λ w. G w.0 w.1) p.writes
          → All (λ w. G w.0 w.1) (ended p s r).1.writes
      ended-writes p s (ok (a, s')) c h = (c, h)
      ended-writes p s (err e) c h = (same s, h)

      fault-Changes :
          (b : Bool) (s : Store) (r : Result (A × Store))
          → Changes s r
          → Changes s (if b then err sql_failed else r)
      fault-Changes true s r c = tt
      fault-Changes false s r c = c

      pub Guarantees-statement :
          (f : Store → Result (A × Store))
          → ((s : Store) → Changes s (f s))
          → Guarantees (statement f)
      unfolding statement
      Guarantees-statement f c = record {
        apply = λ p h.
            ended-writes (waiting p) (interfere p.others p.store) _
              (fault-Changes (next_fault p.faults) _ _ (c _)) h;
      }

      pub Guarantees-read : (f : Store → A) → Guarantees (query f)
      unfolding query
      Guarantees-read f = Guarantees-statement (λ s. ok (f s, s)) (λ s. same s)

      pub Guarantees-or_throw : (o : Option A) (e : Error) → Guarantees (or_throw o e)
      unfolding or_throw
      Guarantees-or_throw none e = Guarantees-throw e
      Guarantees-or_throw (some a) e = Guarantees-pure a

      pub Guarantees-lift : (r : Result A) → Guarantees (lift r)
      unfolding lift
      Guarantees-lift (ok a) = Guarantees-pure a
      Guarantees-lift (err e) = Guarantees-throw e

    pub Guarantees-throw_if : (b : Bool) (e : Error) → Guarantees (throw_if b e)
    unfolding throw_if
    Guarantees-throw_if true e = Guarantees-throw e
    Guarantees-throw_if false e = Guarantees-pure tt

    module _ {A B : Type 0} where
      bound-writes :
          (k : A → Op B) (r : Result A) (p : Pool)
          → ((a : A) → r ≡ ok a → Guarantees (k a))
          → All (λ w. G w.0 w.1) p.writes
          → All (λ w. G w.0 w.1) (onwards k (r, p)).1.writes
      bound-writes k (ok a) p q h = (q a refl).apply p h
      bound-writes k (err e) p q h = h

      pub Guarantees-bind :
          (m : Op A) (k : A → Op B)
          → Guarantees m
          → ((a : A) → Guarantees (k a))
          → Guarantees (m >>= k)
      unfolding ◌>>=◌
      Guarantees-bind m k h q = record {
        apply = λ p w. bound-writes k (m p).0 (m p).1 (λ a e. q a) (h.apply p w);
      }

      -- What `k` does may depend on what `lift r` has checked.
      pub Guarantees-lifted :
          (r : Result A) (k : A → Op B)
          → ((a : A) → r ≡ ok a → Guarantees (k a))
          → Guarantees (lift r >>= k)
      unfolding ◌>>=◌ lift pure throw
      Guarantees-lifted (ok a) k q = record { apply = (q a refl).apply }
      Guarantees-lifted (err e) k q = record { apply = λ p w. w }

      pub Guarantees-query :
          (f : Store → A) (k : A → Op B) → ((a : A) → Guarantees (k a)) → Guarantees (query f >>= k)
      unfolding query
      Guarantees-query f k q = Guarantees-bind _ k (Guarantees-statement (λ s. ok (f s, s)) same) q

module _ (I : Store → Type 0) where
  -- What the others do keeps the invariant.
  abbrev pub Relied : List (Store → Store) → Type 0
  Relied os = All (λ o. (s : Store) → I s → I (o s)) os

  abbrev pub Met : {A : Type 0} → (A → Type 0) → Result A → Type 0
  Met Q (ok a) = Q a
  Met Q (err e) = Unit

  abbrev pub Kept : {A : Type 0} → (A → Type 0) → Result A × Pool → Type 0
  Kept Q (r, p) = I p.store × Relied p.others × Met Q r

  pub record Keeps {A : Type 0} (m : Op A) (Q : A → Type 0) : Type 0 where
    pub apply : (p : Pool) → Relied p.others → I p.store → Kept Q (m p)

  -- What a statement does on tables that meet the invariant.
  abbrev pub Sound : {A : Type 0} → (A → Type 0) → Result (A × Store) → Type 0
  Sound Q (ok (a, s)) = I s × Q a
  Sound Q (err e) = Unit

  pub Sound-constrained :
      {A : Type 0} (Q : A → Type 0) (b : Bool) (a : A) (s : Store)
      → (b ≡ true → I s)
      → Q a
      → Sound Q (constrained b a s)
  unfolding constrained
  Sound-constrained Q true a s h q = (h refl, q)
  Sound-constrained Q false a s h q = tt

  interfere-keeps : (os : List (Store → Store)) (s : Store) → Relied os → I s → I (interfere os s)
  interfere-keeps [] s r h = h
  interfere-keeps (o ∷ os) s r h = r.0 s h

  later_others-Relied : (os : List (Store → Store)) → Relied os → Relied (later_others os)
  later_others-Relied [] r = tt
  later_others-Relied (o ∷ os) r = r.1

  ended-Kept :
      {A : Type 0} (Q : A → Type 0) (p : Pool) (s : Store) (r : Result (A × Store))
      → I s
      → Relied p.others
      → Sound Q r
      → Kept Q (ended p s r)
  ended-Kept Q p s (ok (a, s')) h o q = (q.0, o, q.1)
  ended-Kept Q p s (err e) h o q = (h, o, tt)

  fault-Sound :
      {A : Type 0} (Q : A → Type 0) (b : Bool) (r : Result (A × Store))
      → Sound Q r
      → Sound Q (if b then err sql_failed else r)
  fault-Sound Q true r q = tt
  fault-Sound Q false r q = q

  module _ {A : Type 0} {Q : A → Type 0} where
    pub Keeps-pure : (a : A) → Q a → Keeps (pure a) Q
    unfolding pure
    Keeps-pure a q = record { apply = λ p r h. (h, r, q) }

    pub Keeps-throw : (e : Error) → Keeps (throw e) Q
    unfolding throw
    Keeps-throw e = record { apply = λ p r h. (h, r, tt) }

    pub Keeps-statement :
        (f : Store → Result (A × Store))
        → ((s : Store) → I s → Sound Q (f s))
        → Keeps (statement f) Q
    unfolding statement
    Keeps-statement f q = record {
      apply = λ p r h.
          let i = interfere-keeps p.others p.store r h in
          ended-Kept Q (waiting p) (interfere p.others p.store) _ i (later_others-Relied p.others r)
            (fault-Sound Q (next_fault p.faults) _ (q _ i));
    }

    pub Keeps-or_throw :
        (o : Option A) (e : Error) → ((a : A) → o ≡ some a → Q a) → Keeps (or_throw o e) Q
    unfolding or_throw
    Keeps-or_throw none e q = Keeps-throw e
    Keeps-or_throw (some a) e q = Keeps-pure a (q a refl)

    pub Keeps-lift : (r : Result A) → ((a : A) → r ≡ ok a → Q a) → Keeps (lift r) Q
    unfolding lift
    Keeps-lift (ok a) q = Keeps-pure a (q a refl)
    Keeps-lift (err e) q = Keeps-throw e

  pub Keeps-throw_if : (b : Bool) (e : Error) → Keeps (throw_if b e) (λ u. b ≡ false)
  unfolding throw_if
  Keeps-throw_if true e = Keeps-throw e
  Keeps-throw_if false e = Keeps-pure tt refl

  module _ {A B : Type 0} (Q : A → Type 0) {R : B → Type 0} where
    bound-Kept :
        (k : A → Op B) (r : Result A) (p : Pool)
        → ((a : A) → Q a → Keeps (k a) R)
        → Kept Q (r, p)
        → Kept R (onwards k (r, p))
    bound-Kept k (ok a) p q h = (q a h.2).apply p h.1 h.0
    bound-Kept k (err e) p q h = (h.0, h.1, tt)

    pub Keeps-bind :
        (m : Op A) (k : A → Op B) → Keeps m Q → ((a : A) → Q a → Keeps (k a) R) → Keeps (m >>= k) R
    unfolding ◌>>=◌
    Keeps-bind m k h q = record { apply = λ p r i. bound-Kept k (m p).0 (m p).1 q (h.apply p r i) }

    pub Keeps-query :
        (f : Store → A) (k : A → Op B)
        → ((s : Store) → I s → Q (f s))
        → ((a : A) → Q a → Keeps (k a) R)
        → Keeps (query f >>= k) R
    unfolding query
    Keeps-query f k h q = Keeps-bind _ k (Keeps-statement (λ s. ok (f s, s)) (λ s i. (i, h s i))) q

  module _ {A : Type 0} {Q R : A → Type 0} where
    weaker : (r : Result A × Pool) → ((a : A) → Q a → R a) → Kept Q r → Kept R r
    weaker (ok a, p) w h = (h.0, h.1, w a h.2)
    weaker (err e, p) w h = h

    pub Keeps-weaken : (m : Op A) → ((a : A) → Q a → R a) → Keeps m Q → Keeps m R
    Keeps-weaken m w h = record { apply = λ p r i. weaker (m p) w (h.apply p r i) }
