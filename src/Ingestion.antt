-- ===== src/Ingestion.antt =====
-- How messages come in (src/mailbox-ingestion).
pub mod Envelope
pub mod Cursor
pub mod Advance
pub mod Rejection
pub mod Limiter
pub mod Quota
pub mod Database
pub mod Messages
pub mod Once
pub mod Connections
pub mod Failures
pub mod Webhook
mod Tests
