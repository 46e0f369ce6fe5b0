-- ===== src/Threat.antt =====
-- Threat detection (src/threat-detection/domain).
pub mod Values
pub mod Assessment
pub mod History
pub mod Score
pub mod Locking
pub mod Policy
pub mod Json
pub mod RoundTrip
pub mod Repository
pub mod Stored
mod Tests
