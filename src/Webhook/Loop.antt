-- ===== src/Webhook/Loop.antt =====
-- The worker's loop, `Run` of internal/webhookworker/run.go.
use consulting_revenue_platf.Prelude.{ℕ, ◌≡◌, refl, ◌∙◌, Bool, Option, List, [], ◌∷◌}
use consulting_revenue_platf.Prelude.Text.{Text}
use consulting_revenue_platf.Store.{Result, ok, err, Db}
use consulting_revenue_platf.Worker.Poll.{
  Tick, worked, idle, Turn, quit, tick, PollEnd, running, context_done, next_turn, poll,
}
use consulting_revenue_platf.Webhook.Event.{Decoder}
use consulting_revenue_platf.Webhook.Process.{WebhookOutcome, process_one}
use consulting_revenue_platf.Webhook.Rounds.{process_all}

-- Every error of a round is logged, and the loop goes on.
abbrev pub tick_of : Result WebhookOutcome × Db → Tick × Db
tick_of (ok w, d) = (worked, d)
tick_of (err e, d) = (idle, d)

module _ (dec : Decoder) (parse_uuid : Text → Option ℕ) (configured : ℕ) where
  unfoldable pub worker_tick : (ℕ → Bool) × ℕ → Db → Tick × Db
  worker_tick (is_locked, now) d = tick_of (process_one dec parse_uuid is_locked configured now d)

  -- `Run`.
  unfoldable pub run_worker : List (Turn ((ℕ → Bool) × ℕ)) → Db → PollEnd × Db
  unfolding worker_tick poll
  run_worker = poll worker_tick

  -- The rounds before the context is done, and how the loop ends.
  abbrev pub rounds : List (Turn ((ℕ → Bool) × ℕ)) → List ((ℕ → Bool) × ℕ)
  rounds [] = []
  rounds (quit ∷ ts) = []
  rounds (tick a ∷ ts) = a ∷ rounds ts

  abbrev pub end_of : List (Turn ((ℕ → Bool) × ℕ)) → PollEnd
  end_of [] = running
  end_of (quit ∷ ts) = context_done
  end_of (tick a ∷ ts) = end_of ts

  goes_on :
      (more : Db → PollEnd × Db) (r : Result WebhookOutcome × Db)
      → next_turn worker_tick more (tick_of r) ≡ more r.1
  goes_on more (ok w, d) = refl
  goes_on more (err e, d) = refl

  -- The worker goes on after every error, of a handler, the driver or an empty queue: what it does to
  -- the tables is what the rounds before its context is done do, and only that ends it.
  pub run_worker-rounds :
      (ts : List (Turn ((ℕ → Bool) × ℕ))) (d : Db)
      → run_worker ts d ≡ (end_of ts, process_all dec parse_uuid configured (rounds ts) d)
  unfolding run_worker process_all
  run_worker-rounds [] d = refl
  run_worker-rounds (quit ∷ ts) d = refl
  run_worker-rounds (tick (is_locked, now) ∷ ts) d =
      goes_on (run_worker ts) (process_one dec parse_uuid is_locked configured now d)
      ∙ run_worker-rounds ts (process_one dec parse_uuid is_locked configured now d).1
