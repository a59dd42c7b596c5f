-- ===== src/Webhook/Queue.antt =====
-- The queue of events (internal/repo/webhook_events_worker.go, internal/repo/deadletter.go).
use consulting_revenue_platf.Prelude.{
  ℕ, suc, Bool, true, false, ◌&&◌, not, Option, none, some, List, [], ◌∷◌, ◌==◌, ltb, leb,
  if◌then◌else◌, find, update_where,
}
use consulting_revenue_platf.Store.{
  WebhookEvent, Store, no_rows, no_pending_webhook, Result, ok, Tx, ◌>>=◌, ◌>>◌, stmt, query, exec,
  or_throw, pure,
}

-- `WHERE processed_at IS NULL AND attempt_count < $1`, less the rows that another worker has locked.
abbrev pub is_pending : ℕ → (ℕ → Bool) → WebhookEvent → Bool
is_pending max_attempts is_locked e =
    not e.processed && ltb e.attempt_count max_attempts && not (is_locked e.id)

abbrev pub earlier : WebhookEvent → Option WebhookEvent → WebhookEvent
earlier e none = e
earlier e (some f) = if leb e.received_at f.received_at then e else f

-- `ORDER BY received_at ASC ... LIMIT 1`.
unfoldable pub oldest : (WebhookEvent → Bool) → List WebhookEvent → Option WebhookEvent
oldest p [] = none
oldest p (e ∷ es) = let rest = oldest p es in if p e then some (earlier e rest) else rest

-- `LockNextPendingStripeWebhook`.
unfoldable pub lock_next_pending : ℕ → (ℕ → Bool) → Tx WebhookEvent
lock_next_pending max_attempts is_locked =
    query (λ s. oldest (is_pending max_attempts is_locked) s.webhook_events) >>= λ row.
    or_throw row no_pending_webhook

abbrev pub update_event : ℕ → (WebhookEvent → WebhookEvent) → Store → Store
update_event id f s = record s {
  webhook_events = update_where (λ (e : WebhookEvent). e.id == id) f s.webhook_events;
}

abbrev pub processed : WebhookEvent → WebhookEvent
processed e = record e { processed = true; has_error = false }

-- `MarkStripeWebhookProcessed`.
unfoldable pub mark_processed : ℕ → Tx (Unit {0})
mark_processed id = exec (update_event id processed)

abbrev pub attempted : WebhookEvent → WebhookEvent
attempted e = record e { attempt_count = suc e.attempt_count; has_error = true }

abbrev pub attempts_after : Option WebhookEvent → Option ℕ
attempts_after none = none
attempts_after (some e) = some (suc e.attempt_count)

-- The `UPDATE ... RETURNING attempt_count`. The text of the error is not kept.
abbrev pub update_attempts : ℕ → Store → Result (Option ℕ × Store)
update_attempts id s = ok (
  attempts_after (find (λ (e : WebhookEvent). e.id == id) s.webhook_events),
  update_event id attempted s,
)

-- `InsertDeadLetterTx`, for the queue of this worker.
abbrev pub insert_dead_letter : ℕ → ℕ → Store → Store
insert_dead_letter id attempt s = record s {
  dead_letters = record { webhook_event_id = id; attempt = attempt } ∷ s.dead_letters;
}

-- The last `UPDATE`, which keeps the error.
abbrev pub retired : WebhookEvent → WebhookEvent
retired e = record e { processed = true }

-- After the attempt is counted; the result is whether the failure is terminal.
unfoldable pub bury : ℕ → ℕ → ℕ → Tx Bool
bury id max_attempts n =
    if ltb n max_attempts
    then pure false
    else (exec (insert_dead_letter id n) >> (exec (update_event id retired) >> pure true))

-- `RecordStripeWebhookFailure`.
unfoldable pub record_failure : ℕ → ℕ → Tx Bool
record_failure id max_attempts = do
  row ← stmt (update_attempts id)
  n ← or_throw row no_rows
  bury id max_attempts n
