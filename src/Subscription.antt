-- ===== src/Subscription.antt =====
-- Pro access and its end: api/src/subscription.
pub mod Entitlement
pub mod Access
pub mod Webhook
pub mod Keeping
