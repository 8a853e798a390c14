-- ===== src/Observability.antt =====
-- app/observability: the metrics.
pub mod Metrics
