-- ===== src/Analytics.antt =====
-- app/analytics: what is told of the stored transactions.
pub mod Service
