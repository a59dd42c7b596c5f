-- ===== src/Worker/Retry.antt =====
-- `RunWithRetry` of internal/jobworker/runner.go. The job and the dead-letter writer are functions on a
-- state; for each wait a Boolean tells whether the context is done before the timer fires.
use consulting_revenue_platf.Prelude.{
  ℕ, zero, suc, ◌-◌, Bool, false, Option, none, some, List, [], ◌∷◌, if◌then◌else◌,
}
use consulting_revenue_platf.Prelude.Int.{ℤ, pos, pos_part, ltb_ℤ}
use consulting_revenue_platf.Prelude.Text.{Text}
use consulting_revenue_platf.Int64.{mul64}

-- `10*time.Second` and `50 * time.Millisecond`, in nanoseconds.
abbrev pub max_backoff : ℕ
max_backoff = 10000000000

abbrev pub default_backoff : ℕ
default_backoff = 50000000

-- The rest of the loop of `backoffAfterFailure`, by the rounds left.
unfoldable pub double : ℕ → ℤ → ℤ
unfolding mul64
double zero d = d
double (suc i) d =
    let next = mul64 d (pos 2) in
    let more = double i next in if ltb_ℤ (pos max_backoff) next then pos max_backoff else more

-- `backoffAfterFailure`.
unfoldable pub backoff_after_failure : ℕ → ℤ → ℤ
unfolding double
backoff_after_failure attempt base = double (attempt - 1) base

-- How a run ends.
pub data Ending : Type 0 where
  succeeded : Ending
  cancelled : Ending
  failed : Text → Ending

-- The end of a run, the state, and the waits that it made.
pub record Run (S : Type 0) : Type 0 where
  pub ending : Ending
  pub state : S
  pub waits : List ℤ

abbrev pub waited : {S : Type 0} → ℤ → Run S → Run S
waited w r = record r { waits = w ∷ r.waits }

abbrev pub next_done : List Bool → Bool
next_done [] = false
next_done (b ∷ bs) = b

abbrev pub later_done : List Bool → List Bool
later_done [] = []
later_done (b ∷ bs) = bs

-- The defaults for arguments that are not positive.
abbrev pub at_least_one : ℤ → ℕ
at_least_one m = if ltb_ℤ m (pos 1) then 1 else pos_part m

abbrev pub base_or_default : ℤ → ℤ
base_or_default b = if ltb_ℤ (pos 0) b then b else pos default_backoff

module _ {S : Type 0} (fn : S → Option Text × S) (dlq : Option (ℕ → Text → S → Option Text × S))
    (base : ℤ) where
  abbrev pub stop : Ending → S → Run S
  stop e s = record { ending = e; state = s; waits = [] }

  -- What follows the last failure: the dead letter, whose own error is returned.
  abbrev pub written : Text → Option Text × S → Run S
  written e (none, s) = stop (failed e) s
  written e (some x, s) = stop (failed x) s

  abbrev pub give_up : ℕ → Text → S → Run S
  give_up attempts e s = elim dlq [
    | none ↦ stop (failed e) s
    | some write ↦ written e (write attempts e s)
  ]

  abbrev pub tried : (Text → S → Run S) → Option Text × S → Run S
  tried more (none, s) = stop succeeded s
  tried more (some e, s) = more e s

  -- The loop, from an attempt with so many more to come.
  unfoldable pub attempts : ℕ → ℕ → List Bool → S → Run S
  unfolding backoff_after_failure
  attempts zero attempt done s = tried (λ e s'. give_up attempt e s') (fn s)
  attempts (suc k) attempt done s =
      tried
        (λ e s'.
          let rest = attempts k (suc attempt) (later_done done) s' in
          waited (backoff_after_failure attempt base)
            (if next_done done then stop cancelled s' else rest))
        (fn s)

-- `RunWithRetry`.
unfoldable pub run_with_retry :
    {S : Type 0}
    → (S → Option Text × S)
    → Option (ℕ → Text → S → Option Text × S)
    → ℤ
    → ℤ
    → List Bool
    → S
    → Run S
unfolding attempts
run_with_retry fn dlq max_attempts base_backoff done s =
    attempts fn dlq (base_or_default base_backoff) (at_least_one max_attempts - 1) 1 done s
