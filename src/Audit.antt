-- ===== src/Audit.antt =====
-- app/audit: the audit trail.
pub mod Events
pub mod Logger
pub mod Quiet
