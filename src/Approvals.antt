-- ===== src/Approvals.antt =====
-- app/approvals: the approval requests, their repository and their service, and the routes.
pub mod Answers
pub mod Models
pub mod Repository
pub mod Service
pub mod Evolution
pub mod Progress
pub mod Calls
pub mod Aside
pub mod Review
pub mod Rejection
pub mod Routes
