-- ===== src/Reconciliation.antt =====
-- app/reconciliation: the comparison of the stored transactions with the provider's view.
pub mod Service
