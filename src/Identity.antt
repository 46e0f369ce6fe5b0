-- ===== src/Identity.antt =====
-- Identity and access (src/identity-access).
pub mod ScopeSet
pub mod Scopes
pub mod Authorization
pub mod Service
pub mod Silence
pub mod Revocation
pub mod Cascade
mod Tests
