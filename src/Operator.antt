-- ===== src/Operator.antt =====
-- app/operator: the routes of the operator's dashboard.
pub mod Routes
