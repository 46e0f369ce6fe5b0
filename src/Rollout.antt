-- ===== src/Rollout.antt =====
-- The rollout services (src/classification/services).
pub mod Hash
pub mod Canary
pub mod Slices
pub mod Restart
pub mod Degradation
pub mod Outages
mod Tests
