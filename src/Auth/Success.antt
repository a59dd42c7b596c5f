-- ===== src/Auth/Success.antt =====
-- How handlers are reasoned about where no other connection writes in between: `Replies h s Q` speaks of
-- a run of `h` on the tables `s` whose reply is a success.
use consulting_revenue_platf.Prelude.{ℕ, ◌≡◌, refl, sym, ◌∙◌, Bool, true, false, [], if◌then◌else◌}
use mathlib.Core.Path.{subst}
use consulting_revenue_platf.Store.{Store, Error, Result, ok, err, next_fault}
use consulting_revenue_platf.Store.Pool.{Pool, Op, interfere, waiting, ended, statement}
use consulting_revenue_platf.Store.Alone.{
  Went, Alone, Settles, interfere-nil, later_others-nil, fault-Settles,
}
use consulting_revenue_platf.Auth.Reply.{
  Reply, success, refusal, Handler, reply, answered, calling, ignoring,
}

-- What a handler has done where its reply is a success.
module _ {B : Type 0} where
  abbrev pub Replied : (B → Store → Type 0) → Reply B × Pool → Type 0
  Replied Q (success n b, p) = (p.others ≡ []) × Q b p.store
  Replied Q (refusal n code, p) = Unit

  pub record Replies (h : Handler B) (s : Store) (Q : B → Store → Type 0) : Type 0 where
    pub apply : (p : Pool) → p.store ≡ s → p.others ≡ [] → Replied Q (h p)

  abbrev pub IsRefusal : Reply B → Type 0
  IsRefusal (success n b) = ⊥
  IsRefusal (refusal n code) = Unit

  module _ (Q : B → Store → Type 0) where
    refuses : (r : Reply B) (p : Pool) → IsRefusal r → Replied Q (r, p)
    refuses (success n b) p h = absurd h
    refuses (refusal n code) p h = tt

    answered-Replied :
        {A : Type 0} (onerr : Error → Reply B) (k : A → Handler B) (r : Result A × Pool)
        → ((e : Error) → IsRefusal (onerr e))
        → Went (λ a s'. Replies (k a) s' Q) r
        → Replied Q (answered onerr k r)
    answered-Replied onerr k (ok a, p) w h = h.1.apply p refl h.0
    answered-Replied onerr k (err e, p) w h = refuses (onerr e) p (w e)

    went_on :
        {A : Type 0} (k : Handler B) (p : Pool) (t : Store) (r : Result (A × Store))
        → p.others ≡ []
        → Replies k t Q
        → Settles (λ a s'. Replies k s' Q) r
        → Replied Q (k (ended p t r).1)
    went_on k p t (ok (a, s')) o h w = w.apply _ refl o
    went_on k p t (err e) o h w = h.apply _ refl o

  module _ {s : Store} {Q : B → Store → Type 0} where
    pub Replies-refusal : (r : Reply B) → IsRefusal r → Replies (reply r) s Q
    unfolding reply
    Replies-refusal r h = record { apply = λ p e o. refuses Q r p h }

    pub Replies-reply : (n : ℕ) (b : B) → Q b s → Replies (reply (success n b)) s Q
    unfolding reply
    Replies-reply n b q = record { apply = λ p e o. (o, subst (Q b) (sym e) q) }

    -- A statement whose error is ignored, if the handler can go on from the tables of before and after.
    pub Replies-ignoring :
        {A : Type 0} (f : Store → Result (A × Store)) (k : Handler B)
        → Replies k s Q
        → Settles (λ a s'. Replies k s' Q) (f s)
        → Replies (ignoring (statement f) k) s Q
    unfolding ignoring statement
    Replies-ignoring f k h w = record {
      apply = λ p e o.
          let x : s ≡ interfere p.others p.store = sym e ∙ sym (interfere-nil p.others p.store o) in
          went_on Q k (waiting p) (interfere p.others p.store) _ (later_others-nil p.others o)
            (subst (λ t. Replies k t Q) x h)
            (fault-Settles (λ a s'. Replies k s' Q) (next_fault p.faults) _
              (subst (λ t. Settles (λ a s'. Replies k s' Q) (f t)) x w));
    }

    pub Replies-calling :
        {A : Type 0} (m : Op A) (onerr : Error → Reply B) (k : A → Handler B)
        → ((e : Error) → IsRefusal (onerr e))
        → Alone m s (λ a s'. Replies (k a) s' Q)
        → Replies (calling m onerr k) s Q
    unfolding calling
    Replies-calling m onerr k w h = record {
      apply = λ p e o. answered-Replied Q onerr k (m p) w (h.apply p e o);
    }

    pub Replies-if :
        (b : Bool) (h k : Handler B)
        → (b ≡ true → Replies h s Q)
        → (b ≡ false → Replies k s Q)
        → Replies (if b then h else k) s Q
    Replies-if true h k x y = x refl
    Replies-if false h k x y = y refl

module _ {B : Type 0} {Q R : B → Store → Type 0} where
  weaker : (r : Reply B × Pool) → ((b : B) (x : Store) → Q b x → R b x) → Replied Q r → Replied R r
  weaker (success n b, p) w h = (h.0, w b p.store h.1)
  weaker (refusal n code, p) w h = tt

  pub Replies-weaken :
      {h : Handler B} {s : Store}
      → ((b : B) (x : Store) → Q b x → R b x)
      → Replies h s Q
      → Replies h s R
  Replies-weaken {h} w k = record { apply = λ p e o. weaker (h p) w (k.apply p e o) }
