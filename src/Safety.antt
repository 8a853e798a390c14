-- ===== src/Safety.antt =====
-- app/safety: the payment policy.
pub mod Policy
