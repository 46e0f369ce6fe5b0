-- ===== src/Feedback.antt =====
-- What users' corrections teach (src/feedback-learning).
pub mod Correction
pub mod Corroboration
pub mod Reload
pub mod Reputation
pub mod Observations
pub mod MostLikely
mod Tests
