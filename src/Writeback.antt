-- ===== src/Writeback.antt =====
-- Writing verdicts back to the mailbox platform (src/mailbox-writeback).
pub mod Facet
pub mod Failure
pub mod State
pub mod Idempotence
pub mod History
pub mod Quarantine
pub mod Service
pub mod Adapters
pub mod Platforms
pub mod Isolation
pub mod Completion
mod Tests
