-- ===== src/Storage.antt =====
-- app/storage: the transaction records and the in-memory repository.
pub mod Records
pub mod Repository
pub mod Evolution
pub mod Progress
