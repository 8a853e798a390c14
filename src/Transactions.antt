-- ===== src/Transactions.antt =====
-- app/transactions.
pub mod StateMachine
pub mod StatusService
