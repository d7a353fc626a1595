-- ===== src/Webhook.antt =====
-- backend/src/webhook: the stream of network events and the jobs that it queues.
pub mod Listener
pub mod Backoff
pub mod Processor
pub mod Totals
pub mod Redelivery
