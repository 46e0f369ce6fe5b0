-- ===== src/Api.antt =====
-- The HTTP interface: guards (src/common, src/api/v1/guards) and controllers (src/api/v1/controllers).
pub mod Guards
pub mod Access
pub mod Settings
pub mod VipList
pub mod Messages
pub mod Corrections
pub mod Mailboxes
mod Tests
