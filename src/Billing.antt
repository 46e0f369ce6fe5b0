-- ===== src/Billing.antt =====
-- Plans, payments and usage (src/tenant-subscription).
pub mod Subscription
pub mod Versions
pub mod Meter
pub mod Overage
pub mod Service
pub mod Webhook
mod Tests
