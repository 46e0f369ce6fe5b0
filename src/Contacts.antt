-- ===== src/Contacts.antt =====
-- The senders of messages (src/contact-graph).
pub mod Classification
pub mod Profile
pub mod Personal
pub mod Frequency
pub mod Vip
pub mod Announced
pub mod Storage
mod Tests
