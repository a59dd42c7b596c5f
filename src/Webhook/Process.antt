-- ===== src/Webhook/Process.antt =====
-- `ProcessOne` of internal/webhookworker/process.go.
use consulting_revenue_platf.Prelude.{ℕ, Bool, Option, ltb, if◌then◌else◌}
use consulting_revenue_platf.Prelude.Text.{Text}
use consulting_revenue_platf.Store.{Result, ok, err, Tx, ◌>>=◌, ◌>>◌, pure, attempt, Db, run_in_tx}
use consulting_revenue_platf.Webhook.Event.{Decoder}
use consulting_revenue_platf.Webhook.Handler.{handle_stripe_webhook}
use consulting_revenue_platf.Webhook.Queue.{lock_next_pending, mark_processed, record_failure}

-- The outcome that is counted in the metrics.
pub data WebhookOutcome : Type 0 where
  success retry terminal : WebhookOutcome

abbrev pub max_of : ℕ → ℕ
max_of configured = if ltb configured 2 then 2 else configured

-- After the handler.
abbrev pub conclude : ℕ → ℕ → Result (Unit {0}) → Tx WebhookOutcome
conclude max_attempts id (ok u) = mark_processed id >> pure success
conclude max_attempts id (err e) =
    record_failure id max_attempts >>= λ is_terminal. pure (if is_terminal then terminal else retry)

unfoldable pub process_tx : Decoder → (Text → Option ℕ) → (ℕ → Bool) → ℕ → ℕ → Tx WebhookOutcome
process_tx dec parse_uuid is_locked max_attempts now = do
  row ← lock_next_pending max_attempts is_locked
  r ← attempt (handle_stripe_webhook dec parse_uuid row.payload now)
  conclude max_attempts row.id r

-- `ProcessOne`: the transaction is committed after a handler's error as well.
unfoldable pub process_one :
    Decoder → (Text → Option ℕ) → (ℕ → Bool) → ℕ → ℕ → Db → Result WebhookOutcome × Db
process_one dec parse_uuid is_locked configured now =
    run_in_tx (process_tx dec parse_uuid is_locked (max_of configured) now)
