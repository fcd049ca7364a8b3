-- ===== src/Gateway.antt =====
-- The gateway's state (gateway/ of the package).
pub mod Subscriptions
pub mod Orders
pub mod OrderRefs
pub mod Health
