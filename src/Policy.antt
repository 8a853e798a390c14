-- ===== src/Policy.antt =====
-- app/policy: which of the server's tools may run.
pub mod ToolPolicy
