-- ===== src/Outbox.antt =====
-- The transactional outbox (src/queue): routing, and the relay to the queues.
pub mod Routing
pub mod Relay
pub mod Delivery
pub mod Sweep
pub mod Attempts
pub mod Healthy
mod Tests
