-- ===== src/Worker/Attempts.antt =====
-- What a run with retries does: how it ends, how often the job is run, and its waits.
use mathlib.Core.Path.{subst}
use consulting_revenue_platf.Prelude.{
  ℕ, zero, suc, ◌-◌, ◌+◌, ◌≤◌, ◌<◌, ◌≡◌, refl, sym, ap, ◌⊎◌, inl, inr, Bool, true, false, Option,
  none, some, List, [], ◌∷◌, if◌then◌else◌, arith,
}
use consulting_revenue_platf.Prelude.Int.{ℤ}
use consulting_revenue_platf.Prelude.Text.{Text}
use consulting_revenue_platf.Worker.Retry.{
  backoff_after_failure, succeeded, cancelled, failed, Run, waited, next_done, later_done,
  at_least_one, base_or_default, written, stop, tried, give_up, attempts, run_with_retry,
}

module _ {S : Type 0} (fn : S → Option Text × S) where
  -- The state after so many runs of the job.
  abbrev pub calls : ℕ → S → S
  calls zero s = s
  calls (suc n) s = calls n (fn s).1

  -- So many runs of the job, one after the other, all failed.
  abbrev pub AllFail : ℕ → S → Type 0
  AllFail zero s = Unit
  AllFail (suc n) s = ((e : Text) × ((fn s).0 ≡ some e)) × AllFail n (fn s).1

  -- Whether the context is done in a wait, counted from 0; the waits after the list's are not.
  abbrev pub done_in : ℕ → List Bool → Bool
  done_in n [] = false
  done_in zero (b ∷ bs) = b
  done_in (suc n) (b ∷ bs) = done_in n bs

  -- The context is not done in any of the first waits.
  abbrev pub NotDone : ℕ → List Bool → Type 0
  NotDone n done = (k : ℕ) → k < n → done_in k done ≡ false

  module _ (dlq : Option (ℕ → Text → S → Option Text × S)) (base : ℤ) where
    abbrev pub waits_from : ℕ → ℕ → List ℤ
    waits_from attempt zero = []
    waits_from attempt (suc n) = backoff_after_failure attempt base ∷ waits_from (suc attempt) n

    -- What the dead letter and the error returned are, after all attempts have failed.
    abbrev pub GaveUp : ℕ → Text → S → Run S → Type 0
    GaveUp total e s r =
        ((dlq ≡ none) × (r.state ≡ s) × (r.ending ≡ failed e))
        ⊎ ((write : ℕ → Text → S → Option Text × S) × (dlq ≡ some write)
            × (r.state ≡ (write total e s).1)
            × (((write total e s).0 ≡ none) × (r.ending ≡ failed e)
                ⊎ ((x : Text) × ((write total e s).0 ≡ some x) × (r.ending ≡ failed x))))

    -- `more` is the number of attempts after the one that is made first, and `done` tells of each wait
    -- whether the context is done in it.
    pub data Ended (attempt more : ℕ) (done : List Bool) (s : S) (r : Run S) : Type 0 where
      good :
          (n : ℕ)
          → n ≤ more
          → AllFail n s
          → NotDone n done
          → (fn (calls n s)).0 ≡ none
          → r.ending ≡ succeeded
          → r.state ≡ calls (suc n) s
          → r.waits ≡ waits_from attempt n
          → Ended attempt more done s r
      stopped :
          (n : ℕ)
          → n < more
          → AllFail (suc n) s
          → NotDone n done
          → done_in n done ≡ true
          → r.ending ≡ cancelled
          → r.state ≡ calls (suc n) s
          → r.waits ≡ waits_from attempt (suc n)
          → Ended attempt more done s r
      given_up :
          (e : Text)
          → AllFail more s
          → NotDone more done
          → (fn (calls more s)).0 ≡ some e
          → GaveUp (attempt + more) e (calls (suc more) s) r
          → r.waits ≡ waits_from attempt more
          → Ended attempt more done s r

    abbrev Left : ℕ → Text → S → Run S → Type 0
    Left total e s r = GaveUp total e s r × (r.waits ≡ [])

    written_lem :
        (total : ℕ) (e : Text) (s : S) (write : ℕ → Text → S → Option Text × S)
        (q : Option Text × S)
        → dlq ≡ some write
        → write total e s ≡ q
        → Left total e s (written fn dlq base e q)
    written_lem total e s write (none, s') h k =
        (inr (write, h, ap (λ x. x.1) (sym k), inl (ap (λ x. x.0) k, refl)), refl)
    written_lem total e s write (some x, s') h k =
        (inr (write, h, ap (λ x. x.1) (sym k), inr (x, ap (λ x. x.0) k, refl)), refl)

    given_up_lem : (total : ℕ) (e : Text) (s : S) → Left total e s (give_up fn dlq base total e s)
    given_up_lem total e s = given dlq refl
      where
        given :
            (o : Option (ℕ → Text → S → Option Text × S))
            → dlq ≡ o
            → Left total e s (elim o [
              | none ↦ stop fn dlq base (failed e) s
              | some write ↦ written fn dlq base e (write total e s)
            ])
        given none h = (inl (h, refl, refl), refl)
        given (some write) h = written_lem total e s write (write total e s) h refl

    -- The last attempt.
    last_Ended :
        (attempt : ℕ) (done : List Bool) (s : S) (q : Option Text × S)
        → fn s ≡ q
        → Ended attempt zero done s (tried fn dlq base (give_up fn dlq base attempt) q)
    last_Ended attempt done s (none, s') k =
        good zero (omega arith) tt (λ j l. absurd (omega (arith, l))) (ap (λ x. x.0) k) refl
          (ap (λ x. x.1) (sym k)) refl
    last_Ended attempt done s (some e, s') k =
        let g = given_up_lem attempt e s' in
        let t : attempt ≡ attempt + zero = omega arith in
        given_up e tt (λ j l. absurd (omega (arith, l))) (ap (λ x. x.0) k)
          (subst (λ n. GaveUp n e (fn s).1 (give_up fn dlq base attempt e s')) t
            (subst (λ x. GaveUp attempt e x (give_up fn dlq base attempt e s'))
              (ap (λ x. x.1) (sym k)) g.0))
          g.1

    earlier_waits :
        (n : ℕ) (done : List Bool)
        → next_done done ≡ false
        → NotDone n (later_done done)
        → NotDone (suc n) done
    earlier_waits n [] u h zero l = refl
    earlier_waits n [] u h (suc j) l = refl
    earlier_waits n (b ∷ bs) u h zero l = u
    earlier_waits n (b ∷ bs) u h (suc j) l = h j (omega (arith, l))

    done_in_later :
        (n : ℕ) (done : List Bool)
        → done_in n (later_done done) ≡ true
        → done_in (suc n) done ≡ true
    done_in_later n [] h = cc
    done_in_later n (b ∷ bs) h = h

    done_now : (done : List Bool) → next_done done ≡ true → done_in zero done ≡ true
    done_now [] h = cc
    done_now (b ∷ bs) h = h

    -- An attempt that failed, before others.
    failed_once :
        (attempt more : ℕ) (done : List Bool) (s : S) (e : Text) (r : Run S)
        → (fn s).0 ≡ some e
        → next_done done ≡ false
        → Ended (suc attempt) more (later_done done) (fn s).1 r
        → Ended attempt (suc more) done s (waited (backoff_after_failure attempt base) r)
    failed_once attempt more done s e r k u (good n h f d g x y z) =
        good (suc n) (omega (arith, h)) ((e, k), f) (earlier_waits n done u d) g x y
          (ap (λ ws. backoff_after_failure attempt base ∷ ws) z)
    failed_once attempt more done s e r k u (stopped n h f d v x y z) =
        stopped (suc n) (omega (arith, h)) ((e, k), f) (earlier_waits n done u d)
          (done_in_later n done v) x y (ap (λ ws. backoff_after_failure attempt base ∷ ws) z)
    failed_once attempt more done s e r k u (given_up x f d g w z) =
        let t : suc attempt + more ≡ attempt + suc more = omega arith in
        given_up x ((e, k), f) (earlier_waits _ done u d) g
          (subst
            (λ n.
              GaveUp n x (calls (suc more) (fn s).1)
                (waited (backoff_after_failure attempt base) r))
            t w)
          (ap (λ ws. backoff_after_failure attempt base ∷ ws) z)

    more_Ended :
        (attempt more : ℕ) (b : Bool) (done : List Bool) (s : S) (go : S → Run S)
        (q : Option Text × S)
        → fn s ≡ q
        → next_done done ≡ b
        → ((s' : S) → Ended (suc attempt) more (later_done done) s' (go s'))
        → Ended attempt (suc more) done s (
            tried fn dlq base
              (λ e s'.
                waited
                  (backoff_after_failure attempt base)
                  (if b then stop fn dlq base cancelled s' else go s'))
              q)
    more_Ended attempt more b done s go (none, s') k u h =
        good zero (omega arith) tt (λ j l. absurd (omega (arith, l))) (ap (λ x. x.0) k) refl
          (ap (λ x. x.1) (sym k)) refl
    more_Ended attempt more true done s go (some e, s') k u h =
        stopped zero (omega arith) ((e, ap (λ x. x.0) k), tt) (λ j l. absurd (omega (arith, l)))
          (done_now done u) refl (ap (λ x. x.1) (sym k)) refl
    more_Ended attempt more false done s go (some e, s') k u h =
        subst
          (λ x.
            Ended attempt (suc more) done s (waited (backoff_after_failure attempt base) (go x)))
          (ap (λ x. x.1) k)
          (failed_once attempt more done s e (go (fn s).1) (ap (λ x. x.0) k) u (h (fn s).1))

    attempts-Ended :
        (more attempt : ℕ) (done : List Bool) (s : S)
        → Ended attempt more done s (attempts fn dlq base more attempt done s)
    unfolding attempts
    attempts-Ended zero attempt done s = last_Ended attempt done s (fn s) refl
    attempts-Ended (suc k) attempt done s =
        more_Ended attempt k (next_done done) done s
          (attempts fn dlq base k (suc attempt) (later_done done)) (fn s) refl refl
          (attempts-Ended k (suc attempt) (later_done done))

  -- A run with retries always ends: with the success of the job after fewer failures than there are
  -- attempts, and no dead letter; or in the first wait in which the context is done, and no dead
  -- letter; or, the context done in no wait, after all attempts have failed with exactly one dead letter, if there is a writer, whose own error is
  -- returned in place of the job's. Each failure that another attempt follows, or a cancellation, is
  -- followed by its wait.
  pub run_with_retry-Ended :
      (dlq : Option (ℕ → Text → S → Option Text × S)) (max_attempts base_backoff : ℤ)
      (done : List Bool) (s : S)
      → Ended dlq
          (base_or_default base_backoff)
          1
          (at_least_one max_attempts - 1)
          done
          s
          (run_with_retry fn dlq max_attempts base_backoff done s)
  unfolding run_with_retry
  run_with_retry-Ended dlq max_attempts base_backoff done s =
      attempts-Ended dlq (base_or_default base_backoff) (at_least_one max_attempts - 1) 1 done s
