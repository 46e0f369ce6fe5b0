-- ===== src/Notify.antt =====
-- Notification subscriptions and alerts (src/notification-alerting).
pub mod Subscription
pub mod Authorized
pub mod RoundTrip
pub mod Repository
pub mod Dispatch
pub mod CoolDown
mod Tests
