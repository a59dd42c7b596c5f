-- ===== src/Scenarios/Jobs.antt =====
-- Runs of jobs: retries, the poll loop and what is logged.
use consulting_revenue_platf.Prelude.{
  ℕ, suc, ◌*◌, ◌^◌, ◌≡◌, refl, Bool, Option, none, some, List, [], ◌∷◌, leb, ◌↔◌, if◌then◌else◌,
  arith,
}
use consulting_revenue_platf.Prelude.Int.{pos}
use consulting_revenue_platf.Prelude.Text.{Text, codes, trim_space, to_lower}
use consulting_revenue_platf.Prelude.Search.{has_suffix, contains}
use consulting_revenue_platf.Int64.{mul64}
use consulting_revenue_platf.Worker.Retry.{
  double, backoff_after_failure, failed, succeeded, attempts, run_with_retry,
}
use consulting_revenue_platf.Worker.Backoff.{capped, backoff_after_failure-capped}
use consulting_revenue_platf.Worker.Attempts.{Ended, run_with_retry-Ended}
use consulting_revenue_platf.Worker.Poll.{Turn, quit, tick, context_done}
use consulting_revenue_platf.Webhook.Rounds.{process_all}
use consulting_revenue_platf.Webhook.Loop.{run_worker, run_worker-rounds}
use consulting_revenue_platf.Scenarios.Billing.{billing_db}
use consulting_revenue_platf.Scenarios.Stripe.{sample_decoder, sample_uuid, unlocked}
use consulting_revenue_platf.Audit.Metadata.{
  Value, object, array, scalar, field, end, cons, nil, sensitive_json_key, redacted_text, redact,
  redact_fields, redact_items,
}
use consulting_revenue_platf.Audit.Redacted.{IsClean, redact-IsClean}
use consulting_revenue_platf.Audit.Query.{
  Logs, parameters, mask, is_sensitive_key, sanitize_url, sanitize_url-Logs,
}

-- Retries: a job that fails for so many runs; a dead letter is counted in the state.
abbrev fails_for : ℕ → ℕ × ℕ → Option Text × (ℕ × ℕ)
fails_for n (k, dead) =
    if leb n k then (none, (suc k, dead)) else (some (codes "boom"), (suc k, dead))

abbrev count_dead : Option (ℕ → Text → ℕ × ℕ → Option Text × (ℕ × ℕ))
count_dead = some (λ n e s. (none, (s.0, suc s.1)))

retry_steps : Unit {0}
unfolding run_with_retry attempts backoff_after_failure double mul64
retry_steps = tt

gives_up :
    run_with_retry (fails_for 5) count_dead (pos 3) (pos 7) [] (0, 0)
    ≡ record { ending = failed (codes "boom"); state = (3, 1); waits = pos 7 ∷ pos 14 ∷ [] }
unfolding retry_steps
gives_up = refl

recovers :
    run_with_retry (fails_for 1) count_dead (pos 3) (pos 7) [] (0, 0)
    ≡ record { ending = succeeded; state = (2, 0); waits = pos 7 ∷ [] }
unfolding retry_steps
recovers = refl

backoff_after_failure-capped_example :
    backoff_after_failure 4 (pos 50000000) ≡ pos (capped (50000000 * 2 ^ 3))
backoff_after_failure-capped_example = backoff_after_failure-capped 3 50000000 (omega arith)

run_with_retry-Ended_example :
    Ended
      (fails_for 5)
      count_dead
      (pos 7)
      1
      2
      []
      (0, 0)
      (run_with_retry (fails_for 5) count_dead (pos 3) (pos 7) [] (0, 0))
run_with_retry-Ended_example =
    run_with_retry-Ended (fails_for 5) count_dead (pos 3) (pos 7) [] (0, 0)

-- The worker's loop.
abbrev turns : List (Turn ((ℕ → Bool) × ℕ))
turns =
    tick (unlocked, 6) ∷ tick (unlocked, 7) ∷ tick (unlocked, 8) ∷ quit ∷ tick (unlocked, 9) ∷ []

run_worker-rounds_example : run_worker sample_decoder sample_uuid 5 turns billing_db ≡ (
  context_done,
  process_all sample_decoder sample_uuid 5
      ((unlocked, 6) ∷ (unlocked, 7) ∷ (unlocked, 8) ∷ [])
      billing_db,
)
run_worker-rounds_example = run_worker-rounds sample_decoder sample_uuid 5 turns billing_db

-- Metadata of an audit row.
abbrev metadata : Value
metadata = object (
    field (codes "role") (scalar (codes "owner")) (
      field (codes "items")
        (array (cons (object (field (codes " API_Key ") (scalar (codes "k")) end)) nil)) end))

redact_steps : Unit {0}
unfolding redact redact_fields redact_items sensitive_json_key is_sensitive_key sanitize_url
    has_suffix contains trim_space to_lower
redact_steps = tt

redacts :
    redact metadata
    ≡ object (
        field (codes "role") (scalar (codes "owner")) (
          field
            (codes "items")
            (array (cons (object (field (codes " API_Key ") (scalar redacted_text) end)) nil))
            end))
unfolding redact_steps
redacts = refl

redact-IsClean_example :
    IsClean (redact metadata) × ((redact metadata ≡ metadata) ↔ IsClean metadata)
redact-IsClean_example = redact-IsClean metadata

-- A URL.
abbrev sample_query : Text → Option (List (Text × List Text))
sample_query q =
    some ((codes "page", codes "2" ∷ []) ∷ (codes "Token", codes "a" ∷ codes "b" ∷ []) ∷ [])

sanitizes : sanitize_url sample_query (codes "/v1") (codes "page=2&Token=a&Token=b") ≡ (
  codes "/v1",
  parameters ((codes "page", codes "2" ∷ []) ∷ (codes "Token", mask ∷ mask ∷ []) ∷ []),
)
unfolding redact_steps
sanitizes = refl

sanitize_url-Logs_example :
    ((sanitize_url sample_query (codes "/v1") (codes "p=2")).0 ≡ codes "/v1")
    × Logs
        (codes "p=2")
        (sample_query (codes "p=2"))
        (sanitize_url sample_query (codes "/v1") (codes "p=2")).1
sanitize_url-Logs_example = sanitize_url-Logs sample_query (codes "/v1") (codes "p=2")
