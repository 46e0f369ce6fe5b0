-- ===== src/Priority.antt =====
-- How urgent a message is (src/prioritization).
pub mod Score
pub mod Message
pub mod Bounds
pub mod Escalation
pub mod Fractions
pub mod RoundTrip
mod Tests
