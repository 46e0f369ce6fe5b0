-- ===== src/Classify.antt =====
-- How a message gets its labels (src/classification).
pub mod Signals
pub mod Labels
pub mod Service
pub mod Outcome
pub mod Headers
mod Tests
