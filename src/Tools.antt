-- ===== src/Tools.antt =====
-- app/mcp: the tools of the server, from their inputs to their answers.
pub mod Schemas
pub mod Checks
pub mod Payments
pub mod Queries
pub mod Handlers
pub mod Safety
pub mod Reach
pub mod Limits
