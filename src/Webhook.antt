-- ===== src/Webhook.antt =====
-- The webhook worker: Stripe's events are parsed, handled and retired from their queue.
pub mod Event
pub mod Handler
pub mod HandlerRun
pub mod Queue
pub mod Process
pub mod ProcessRun
pub mod Rounds
pub mod Loop
