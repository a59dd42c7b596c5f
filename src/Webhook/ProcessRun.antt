-- ===== src/Webhook/ProcessRun.antt =====
-- What one round of the worker does: the oldest pending event is handled and marked, or its failure is
-- counted, and nothing else is written.
use consulting_revenue_platf.Prelude.{
  ℕ, suc, ◌≡◌, ◌≢◌, refl, ◌⊎◌, inl, inr, Bool, true, false, Option, none, some, List, [], ◌∷◌, ◌==◌,
  ltb, ap, update_where, Bool-cases, if◌then◌else◌, find, some_inj, arith,
}
use mathlib.Core.Path.{sym, subst}
use consulting_revenue_platf.Prelude.Text.{Text}
use consulting_revenue_platf.Store.{
  WebhookEvent, Store, Error, sql_failed, no_rows, no_pending_webhook, ok, err, Tx, ◌>>=◌, pure,
  attempt, or_throw, Db, Ensures, Ensures-query, Ensures-found, Ensures-or_throw, Ensures-pure,
  Ensures-if, Ensures-bind, Ensures-checked, Ensures-exec, Ensures-weaken, Ensures-attempt, Refused,
  Ensures-Refused, Halts, stmt-Halts, bind-Halts, Outcome, run_in_tx-Outcome,
}
use consulting_revenue_platf.Payment.RefundRun.{Untouched}
use consulting_revenue_platf.Webhook.Event.{Decoder}
use consulting_revenue_platf.Webhook.Handler.{handle_stripe_webhook}
use consulting_revenue_platf.Webhook.HandlerRun.{Handled, handle_stripe_webhook-Ensures}
use consulting_revenue_platf.Webhook.Queue.{
  is_pending, oldest, lock_next_pending, update_event, processed, mark_processed, attempted,
  attempts_after, update_attempts, insert_dead_letter, retired, bury, record_failure,
}
use consulting_revenue_platf.Webhook.Process.{
  WebhookOutcome, success, retry, terminal, max_of, conclude, process_tx, process_one,
}

-- The columns of an event that was handled, of one whose failure is counted, and of one that is
-- taken from the queue unhandled.
abbrev pub handled_event : WebhookEvent → WebhookEvent
handled_event e = record e { processed = true; has_error = false }

abbrev pub failed_event : WebhookEvent → WebhookEvent
failed_event e = record e { attempt_count = suc e.attempt_count; has_error = true }

abbrev pub dead_event : WebhookEvent → WebhookEvent
dead_event e = record e { attempt_count = suc e.attempt_count; has_error = true; processed = true }

abbrev pub events_at : ℕ → (WebhookEvent → WebhookEvent) → List WebhookEvent → List WebhookEvent
events_at id f es = update_where (λ (e : WebhookEvent). e.id == id) f es

module _ (dec : Decoder) (parse_uuid : Text → Option ℕ) (max_attempts now : ℕ) (row : WebhookEvent)
    (s : Store) where
  -- The handler returned an error, and not one of a failed statement.
  abbrev pub IsRefused : Type 0
  IsRefused = (e : Error) × Refused (handle_stripe_webhook dec parse_uuid row.payload now) s e

  -- The event took effect and is marked; or it was refused and nothing but that is counted: below
  -- the maximum it stays in the queue, and at the maximum it is dead-lettered and leaves it.
  abbrev pub Round : WebhookOutcome → Store → Type 0
  Round success s' =
      (t : Store) × Handled dec parse_uuid (dec.event row.payload) now s t
      × (s' ≡ record t { webhook_events = events_at row.id handled_event t.webhook_events })
  Round retry s' =
      IsRefused
      × ((found : WebhookEvent) × (find (λ (e : WebhookEvent). e.id == row.id) s.webhook_events
            ≡ some found)
          × (ltb (suc found.attempt_count) max_attempts ≡ true)
          × (s' ≡ record s { webhook_events = events_at row.id failed_event s.webhook_events }))
  Round terminal s' =
      IsRefused
      × ((found : WebhookEvent) × (find (λ (e : WebhookEvent). e.id == row.id) s.webhook_events
            ≡ some found)
          × (ltb (suc found.attempt_count) max_attempts ≡ false)
          × (s' ≡ record s {
            webhook_events = events_at row.id dead_event s.webhook_events;
            dead_letters =
                record { webhook_event_id = row.id; attempt = suc found.attempt_count }
                ∷ s.dead_letters;
          }))

  -- The two updates of a dead event are one.
  twice :
      (es : List WebhookEvent)
      → events_at row.id retired (events_at row.id attempted es) ≡ events_at row.id dead_event es
  twice [] = refl
  twice (e ∷ es) = elim (Bool-cases (e.id == row.id)) [
    | inl t ↦ rw (t, t, twice es)
    | inr t ↦ rw (t, t, twice es)
  ]

  dead_store :
      (n : ℕ)
      → update_event row.id retired (insert_dead_letter row.id n (update_event row.id attempted s))
        ≡ record s {
          webhook_events = events_at row.id dead_event s.webhook_events;
          dead_letters = record { webhook_event_id = row.id; attempt = n } ∷ s.dead_letters;
        }
  dead_store n =
      ap
        (λ (es : List WebhookEvent). record s {
          webhook_events = es;
          dead_letters = record { webhook_event_id = row.id; attempt = n } ∷ s.dead_letters;
        })
        (twice s.webhook_events)

  -- Why there is no round.
  abbrev pub NoRound : Error → Bool → Store → Type 0
  NoRound e b s' = e ≡ sql_failed

  abbrev after_failure : Bool → Tx WebhookOutcome
  after_failure is_terminal = pure (if is_terminal then terminal else retry)

  bury-Ensures :
      (refused : IsRefused) (found : WebhookEvent)
      → find (λ (e : WebhookEvent). e.id == row.id) s.webhook_events ≡ some found
      → Ensures
          (bury row.id max_attempts (suc found.attempt_count))
          (update_event row.id attempted s)
          (λ b s'. Ensures (after_failure b) s' Round NoRound)
          NoRound
  unfolding bury
  bury-Ensures refused found f =
      Ensures-if (ltb (suc found.attempt_count) max_attempts) (pure false) _
        (λ t. Ensures-pure false (Ensures-pure retry (refused, (found, f, t, refl))))
        (λ t. Ensures-exec (insert_dead_letter row.id (suc found.attempt_count)) _ (
          Ensures-exec (update_event row.id retired) _ (
            Ensures-pure true (
              Ensures-pure terminal
                (refused, (found, f, t, dead_store (suc found.attempt_count)))))))

  module _ (refused : IsRefused)
      (known : find (λ (e : WebhookEvent). e.id == row.id) s.webhook_events ≢ none) where
    counted :
        (o : Option WebhookEvent)
        → find (λ (e : WebhookEvent). e.id == row.id) s.webhook_events ≡ o
        → Ensures
            (or_throw (attempts_after o) no_rows >>= bury row.id max_attempts)
            (update_event row.id attempted s)
            (λ b s'. Ensures (after_failure b) s' Round NoRound)
            NoRound
    counted none f = absurd (known f)
    counted (some found) f =
        Ensures-found _ _ _ (λ h. absurd cc)
          (λ n h.
            subst
              (λ x.
                Ensures (bury row.id max_attempts x) (update_event row.id attempted s)
                  (λ b s'. Ensures (after_failure b) s' Round NoRound) NoRound)
              (some_inj h) (bury-Ensures refused found f))

    failed-Ensures : (e : Error) → Ensures (conclude max_attempts row.id (err e)) s Round NoRound
    unfolding record_failure
    failed-Ensures e = Ensures-bind _ _ (
        Ensures-checked (update_attempts row.id) _
          (counted (find (λ (e : WebhookEvent). e.id == row.id) s.webhook_events) refl))

  marked-Ensures :
      (t : Store)
      → Handled dec parse_uuid (dec.event row.payload) now s t
      → Ensures (conclude max_attempts row.id (ok tt)) t Round NoRound
  unfolding mark_processed
  marked-Ensures t f =
      Ensures-exec (update_event row.id processed) _ (Ensures-pure success (t, f, refl))

conclude-Halts : (max_attempts id : ℕ) (e : Error) → Halts (conclude max_attempts id (err e))
unfolding record_failure
conclude-Halts max_attempts id e = bind-Halts _ _ (stmt-Halts (update_attempts id) _)

-- The oldest event is in the table.
oldest_known :
    (p : WebhookEvent → Bool) (es : List WebhookEvent) (e : WebhookEvent)
    → oldest p es ≡ some e
    → find (λ (x : WebhookEvent). x.id == e.id) es ≢ none
unfolding oldest
oldest_known p [] e h n = cc
oldest_known p (x ∷ es) e h n = ground (arith, oldest_known p es e)

module _ (dec : Decoder) (parse_uuid : Text → Option ℕ) (is_locked : ℕ → Bool)
    (max_attempts now : ℕ) where
  -- One round on the oldest pending event.
  abbrev pub Processed : Store → WebhookOutcome → Store → Type 0
  Processed s w s' =
      (row : WebhookEvent) × (oldest (is_pending max_attempts is_locked) s.webhook_events
        ≡ some row)
      × Round dec parse_uuid max_attempts now row s w s'

  abbrev pub NotProcessed : Store → Error → Type 0
  NotProcessed s e =
      ((e ≡ no_pending_webhook)
        × (oldest (is_pending max_attempts is_locked) s.webhook_events ≡ none))
      ⊎ (e ≡ sql_failed)

  after_error :
      (s : Store) (row : WebhookEvent)
      → oldest (is_pending max_attempts is_locked) s.webhook_events ≡ some row
      → (e : Error) (b : Bool) (s' : Store) → Untouched s e b s'
      → (b ≡ true) ⊎ Refused (handle_stripe_webhook dec parse_uuid row.payload now) s e
      → (b ≡ true)
        ⊎ Ensures
            (conclude max_attempts row.id (err e))
            s'
            (Round dec parse_uuid max_attempts now row s)
            (NoRound dec parse_uuid max_attempts now row s)
  after_error s row h e b s' (inl t) q = inl t
  after_error s row h e b s' (inr u) (inl t) = inl t
  after_error s row h e b s' (inr u) (inr q) = inr (
      subst
        (λ x.
          Ensures (conclude max_attempts row.id (err e)) x
            (Round dec parse_uuid max_attempts now row s)
            (NoRound dec parse_uuid max_attempts now row s))
        (sym u)
        (failed-Ensures dec parse_uuid max_attempts now row s (e, q)
          (oldest_known _ s.webhook_events row h) e))

  handled_row :
      (s : Store) (row : WebhookEvent)
      → oldest (is_pending max_attempts is_locked) s.webhook_events ≡ some row
      → Ensures
          (attempt (handle_stripe_webhook dec parse_uuid row.payload now)
            >>= conclude max_attempts row.id)
          s
          (Round dec parse_uuid max_attempts now row s)
          (NoRound dec parse_uuid max_attempts now row s)
  handled_row s row h =
      Ensures-attempt (conclude max_attempts row.id) _ _ (conclude-Halts max_attempts row.id)
        (λ x. refl) (handle_stripe_webhook dec parse_uuid row.payload now) s
        (Ensures-weaken _ (λ u t f. marked-Ensures dec parse_uuid max_attempts now row s t f)
          (λ e b s' w. after_error s row h e b s' w.0 w.1)
          (Ensures-Refused (handle_stripe_webhook dec parse_uuid row.payload now) s _ _
            (handle_stripe_webhook-Ensures now s dec parse_uuid row.payload)))

  process_tx-Ensures :
      (s : Store)
      → Ensures
          (process_tx dec parse_uuid is_locked max_attempts now)
          s
          (Processed s)
          (λ e b s'. NotProcessed s e)
  unfolding process_tx lock_next_pending
  process_tx-Ensures s = Ensures-bind _ _ (
      Ensures-query _ _ (
        Ensures-or_throw _ _ (λ h. inl (refl, h))
          (λ row h.
            Ensures-weaken _ (λ w s' r. (row, h, r)) (λ e b s' x. inr x) (handled_row s row h))))

-- `ProcessOne`, with any calls of the driver failed. On success the oldest pending event was handled:
-- what its type and object ask for and its mark are committed together; or the handler refused it,
-- no statement having failed, nothing but the attempt is counted, and the event is dead-lettered and leaves the queue if this was its last attempt. On an
-- error the tables are as they were, and the queue had no pending event or a statement failed.
pub process_one-Outcome :
    (dec : Decoder) (parse_uuid : Text → Option ℕ) (is_locked : ℕ → Bool) (configured now : ℕ)
    (d : Db)
    → Outcome
        (Processed dec parse_uuid is_locked (max_of configured) now d.store)
        (λ e b s'. NotProcessed dec parse_uuid is_locked (max_of configured) now d.store e)
        d
        (process_one dec parse_uuid is_locked configured now d)
unfolding process_one
process_one-Outcome dec parse_uuid is_locked configured now d =
    run_in_tx-Outcome _ _ _ d
      (process_tx-Ensures dec parse_uuid is_locked (max_of configured) now d.store)
